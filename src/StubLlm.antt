-- ===== src/StubLlm.antt =====
-- syndicate/stub_llm.py: the scripted stand-in for the model. Its world holds the scripts and, for each
-- ticket, the clients that were made, which calls change in place.
pub mod History
pub mod Shared
use syndicate.Prelude.{
  ℕ, zero, suc, ◌+◌, ◌≡◌, refl, String, ◌<>◌, Bool, true, false, Option, none, some, List, [], ◌∷◌,
  ◌++◌, length, str, is_none, if◌then◌else◌, or_nil,
}
use syndicate.Prelude.Maps.{put, find}
use syndicate.Exec.{Exec, Result, ok, raised, runtime_error, value_error, pure, raise}
use syndicate.Llm.{Block, text, tool_use, ToolInput, Request, Response, LlmClient}

pub record StubToolCall : Type 0 where
  pub name : String
  pub input : ToolInput

pub record StubTurn : Type 0 where
  pub tool_calls : List StubToolCall
  pub done : Bool
  pub text : String

unfoldable pub tool_turn : List StubToolCall → StubTurn
tool_turn calls = record { tool_calls = calls; done = false; text = "done" }

unfoldable pub complete_turn : String → StubTurn
complete_turn reply = record { tool_calls = []; done = true; text = reply }

-- A script has a first turn: the constructor refuses an empty one.
pub record StubAnthropicClient : Type 0 where
  pub first : StubTurn
  pub later : List StubTurn
  pub call_index : ℕ
  pub calls_seen : List Request

-- `script[min(i, len(script) - 1)]`
unfoldable pub turn_at : ℕ → StubTurn → List StubTurn → StubTurn
turn_at zero t ts = t
turn_at (suc i) t [] = t
turn_at (suc i) t (u ∷ us) = turn_at i u us

unfoldable pub next_turn : StubAnthropicClient → StubAnthropicClient × StubTurn
unfolding turn_at
next_turn c = (record c { call_index = c.call_index + 1 }, turn_at c.call_index c.first c.later)

-- The blocks of the calls, numbered from `i`.
unfoldable pub blocks_from : ℕ → ℕ → List StubToolCall → List Block
blocks_from call_index i [] = []
blocks_from call_index i (call ∷ calls) =
    tool_use ("stub-" <> str call_index <> "-" <> str i) call.name call.input
    ∷ blocks_from call_index (i + 1) calls

abbrev pub reply_of : ℕ → StubTurn → Response
reply_of call_index turn =
    if turn.done
    then record { content = text turn.text ∷ []; stop_reason = "end_turn" }
    else record { content = blocks_from call_index 0 turn.tool_calls; stop_reason = "tool_use" }

-- `_Messages.create`: the request is recorded as it is now.
unfoldable pub create : Request → StubAnthropicClient → StubAnthropicClient × Response
unfolding next_turn blocks_from
create request c =
    let asked = next_turn (record c { calls_seen = c.calls_seen ++ (request ∷ []) }) in
    (asked.0, reply_of asked.0.call_index asked.1)

-- `_scripts` and `_client_history`
pub record Stubs : Type 0 where
  pub scripts : List (String × List StubTurn)
  pub client_history : List (String × List StubAnthropicClient)

unfoldable pub set_stub_script : String → List StubTurn → Stubs → Stubs
set_stub_script ticket_id script w = record {
  scripts = put ticket_id script w.scripts;
  client_history = put ticket_id [] w.client_history;
}

unfoldable pub get_call_history : String → Stubs → List StubAnthropicClient
get_call_history ticket_id w = or_nil (find ticket_id w.client_history)

-- A client of a list after a call, with the reply. The list has a client at the place.
unfoldable pub create_at :
    ℕ → Request → List StubAnthropicClient → List StubAnthropicClient × Option Response
create_at i request [] = ([], none)
create_at zero request (c ∷ cs) = let made = create request c in (made.0 ∷ cs, some made.1)
create_at (suc i) request (c ∷ cs) = let made = create_at i request cs in (c ∷ made.0, made.1)

abbrev pub replied : String → List StubAnthropicClient × Option Response → Exec Stubs Response
replied ticket_id (cs, none) w = (raised (runtime_error "no such client"), w)
replied ticket_id (cs, some reply) w =
    (ok reply, record w { client_history = put ticket_id cs w.client_history })

-- The client at a place of a ticket's history.
unfoldable pub client_at : String → ℕ → LlmClient Stubs
unfolding create_at get_call_history
client_at ticket_id i = record {
  create = λ request w. replied ticket_id (create_at i request (get_call_history ticket_id w)) w;
}

-- A client for the script that was found.
unfoldable pub client_for :
    (String → String) → String → Option (List StubTurn) → Exec Stubs (LlmClient Stubs)
unfolding client_at get_call_history
client_for repr ticket_id none w = (
  raised (
      runtime_error (
        "no stub LLM script registered for ticket_id="
        <> repr ticket_id
        <> "; call syndicate.stub_llm.set_stub_script first")),
  w,
)
client_for repr ticket_id (some []) w =
    (raised (value_error "stub LLM script must have at least one turn"), w)
client_for repr ticket_id (some (t ∷ ts)) w =
    let history = get_call_history ticket_id w in
    (
      ok (client_at ticket_id (length history)),
      record w {
        client_history =
            put ticket_id
              (history ++ (record { first = t; later = ts; call_index = 0; calls_seen = [] } ∷ []))
              w.client_history;
      },
    )

-- A new client at the end of a ticket's history.
unfoldable pub get_stub_client : (String → String) → String → Exec Stubs (LlmClient Stubs)
unfolding client_for
get_stub_client repr ticket_id w = client_for repr ticket_id (find ticket_id w.scripts) w

abbrev pub last_calls : List StubAnthropicClient → List Request
last_calls [] = []
last_calls (c ∷ []) = c.calls_seen
last_calls (c ∷ d ∷ cs) = last_calls (d ∷ cs)

unfoldable pub get_last_calls : String → Stubs → List Request
unfolding get_call_history
get_last_calls ticket_id w = last_calls (get_call_history ticket_id w)
