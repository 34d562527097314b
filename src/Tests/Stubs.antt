-- ===== src/Tests/Stubs.antt =====
-- The theorem about the stand-in for the model, with a script of two turns.
use syndicate.Prelude.{◌≡◌, String, List, [], ◌∷◌}
use syndicate.Exec.{ok}
use syndicate.Llm.{Request, user}
use syndicate.StubLlm.{
  StubTurn, Stubs, tool_turn, complete_turn, client_at, get_last_calls, set_stub_script,
  get_stub_client,
}
use syndicate.StubLlm.History.{serve, AreReplies, get_stub_client-replies}

abbrev plain : String → String
plain s = s

abbrev no_stubs : Stubs
no_stubs = record { scripts = []; client_history = [] }

abbrev working : StubTurn
working = tool_turn []

abbrev ending : List StubTurn
ending = complete_turn "done" ∷ []

abbrev question : String → Request
question s = record { model = "model"; max_tokens = 10; tools = []; messages = user s ∷ [] }

abbrev questions : List Request
questions = question "one" ∷ question "two" ∷ question "three" ∷ []

get_stub_client-replies_example :
    let got = get_stub_client plain "t" (set_stub_script "t" (working ∷ ending) no_stubs) in
    (got.0 ≡ ok (client_at "t" 0))
    × AreReplies working ending questions (serve (client_at "t" 0) questions got.1).0
    × (get_last_calls "t" (serve (client_at "t" 0) questions got.1).1 ≡ questions)
unfolding tool_turn complete_turn
get_stub_client-replies_example =
    get_stub_client-replies plain "t" working ending questions no_stubs
