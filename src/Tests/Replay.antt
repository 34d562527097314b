-- ===== src/Tests/Replay.antt =====
-- The executor over a script of two turns, in a world that counts commits.
use syndicate.Prelude.{◌≡◌, refl, some, none, [], ◌∷◌}
use syndicate.Prelude.Maps.{find}
use syndicate.Exec.Simulates.{Agree}
use syndicate.Llm.{ToolInput}
use syndicate.StubLlm.{StubTurn, Stubs, tool_turn, complete_turn, get_call_history}
use syndicate.StubLlm.Shared.{stub_host}
use syndicate.Nodes.Executor.{executor_node}
use syndicate.Nodes.Script.Rounds.{replay}
use syndicate.Nodes.Script.Attempts.{IsThreaded, key, prompt_of, executor_node-replay}
use syndicate.Tests.World.{demo, start, empty_world}

abbrev git_status : ToolInput
git_status = record {
  restart = none;
  command = some "git status";
  path = none;
  file_text = none;
  old_str = none;
  new_str = none;
}

abbrev looking : StubTurn
looking = tool_turn (record { name = "bash"; input = git_status } ∷ [])

abbrev ending : StubTurn
ending = complete_turn "done"

abbrev pub stubs : Stubs
stubs = record { scripts = ("T-1", looking ∷ ending ∷ []) ∷ []; client_history = ("T-1", []) ∷ [] }

script_found : find (key start) stubs.scripts ≡ some (looking ∷ ending ∷ [])
unfolding find
script_found = refl

executor_node-replay_example :
    Agree
      (IsThreaded
        (prompt_of demo start)
        looking
        (ending ∷ [])
        (key start)
        (get_call_history (key start) stubs))
      (executor_node (stub_host demo) start (empty_world, stubs))
      (replay demo looking (ending ∷ []) start (empty_world, []))
executor_node-replay_example =
    executor_node-replay demo looking (ending ∷ []) start empty_world stubs script_found
