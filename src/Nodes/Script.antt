-- ===== src/Nodes/Script.antt =====
-- What a script of syndicate/stub_llm.py does when it is played without a model, and the requests that
-- a conversation about it consists of.
pub mod Turns
pub mod Played
pub mod Loop
pub mod Rounds
pub mod Attempts
use package.text.Mathlib.TextLemmas.{append-nil as text_append_nil}
use mathlib.Core.List.{append_assoc, append-nil}
use syndicate.Prelude.{
  ℕ, zero, suc, ◌+◌, ◌≤◌, ◌≡◌, ◌∙◌, ◌⊎◌, refl, sym, ap, subst, String, str_eq, Bool, true, false,
  Bool-cases, inl, inr, Option, none, some, List, [], ◌∷◌, ◌++◌, length, length-append, arith,
}
use syndicate.Prelude.Maps.{put, find, find-put}
use syndicate.Exec.{Exec, Result, ok, raised, pure, continue, when◌perform◌otherwise◌, ◌>>=◌, ◌>>◌}
use syndicate.Exec.Yields.{Returned, Yields, Yields-pure, Yields-bind, Yields-then}
use syndicate.Exec.Same.{bind-same, bind-mapped, bind_assoc, pure-bind}
use syndicate.Exec.Beside.{on_left, on_right}
use syndicate.Runtime.Base.{RuntimeClient}
use syndicate.Llm.{
  Block, ToolResult, Message, user, assistant, tool_results, Request, Response, LlmClient,
  reply_text,
}
use syndicate.Host.{Host}
use syndicate.StubLlm.{
  StubToolCall, StubTurn, StubAnthropicClient, Stubs, turn_at, reply_of, blocks_from, create,
  create_at, client_at, get_call_history, next_turn,
}
use syndicate.StubLlm.Shared.{Shared, sandboxed, scripted, stub_host}
use syndicate.Nodes.Config.{executor_model, executor_tools}
use syndicate.Nodes.Tools.{run_tool}
use syndicate.Nodes.Loop.{run_tools, turns}
use syndicate.Nodes.Beside.{run_tools-on_left}

-- The results in the last message, if it is one with results.
abbrev pub last_results : List Message → Option ℕ
last_results [] = none
last_results (user t ∷ []) = none
last_results (assistant blocks ∷ []) = none
last_results (tool_results rs ∷ []) = some (length rs)
last_results (m ∷ n ∷ ms) = last_results (n ∷ ms)

abbrev pub first_message : List Message → Option Message
first_message [] = none
first_message (m ∷ ms) = some m

-- What is left of a script behind its next turn; the last turn stays.
abbrev pub rest_of : StubTurn → List StubTurn → StubTurn × List StubTurn
rest_of t [] = (t, [])
rest_of t (u ∷ us) = (u, us)

abbrev pub IsRaised : {A : Type 0} → Result A → Type 0
IsRaised (ok a) = ⊥
IsRaised (raised e) = Unit

-- The requests of a conversation of `left` turns at most, which ends as `result` says. Each begins with
-- the same message and has two messages more than the one before, the first one `n`; the last message
-- has the results of the calls of the turn before and no others. A turn that is done, or whose tools
-- raise, is the last.
abbrev pub IsDialogue :
    Message → Result String → ℕ → ℕ → Option ℕ → StubTurn → List StubTurn → List Request → Type 0
IsDialogue opening result zero n fresh t ts [] = Unit
IsDialogue opening result zero n fresh t ts (request ∷ requests) = ⊥
IsDialogue opening result (suc left) n fresh t ts [] = ⊥
IsDialogue opening result (suc left) n fresh t ts (request ∷ requests) =
    (first_message request.messages ≡ some opening)
    × (length request.messages ≡ n)
    × (last_results request.messages ≡ fresh)
    × (((requests ≡ []) × ((t.done ≡ true) ⊎ IsRaised result))
        ⊎ ((t.done ≡ false)
            × IsDialogue opening result left (n + 2) (some (length t.tool_calls)) (rest_of t ts).0
                (rest_of t ts).1 requests))

module _ {W : Type 0} (host : Host W) (client : RuntimeClient W) (cwd : String) where
  -- The tool calls of a turn, in order.
  abbrev pub run_calls : List StubToolCall → Exec W (Unit {0})
  run_calls [] = pure tt
  run_calls (call ∷ calls) = run_tool host client cwd call.name call.input >> run_calls calls

  -- A script, played without a model: `left` turns at most.
  unfoldable pub play : ℕ → StubTurn → List StubTurn → Exec W String
  play zero t ts = pure "tool call cap reached without a final answer"
  play (suc left) t [] =
      when t.done perform pure t.text otherwise (run_calls t.tool_calls >> play left t [])
  play (suc left) t (u ∷ us) =
      when t.done perform pure t.text otherwise (run_calls t.tool_calls >> play left u us)
