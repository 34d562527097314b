-- ===== src/Scripts/SmokeMock.antt =====
-- scripts/smoke_e2e_mock.py
use syndicate.Prelude.{
  String, Bool, true, false, ◌&&◌, List, [], ◌∷◌, ◌++◌, map, str_eq, is_empty, or_nil,
}
use syndicate.Exec.{Exec, Result, ok, raised, external, ◌>>=◌, ◌>>◌}
use syndicate.State.{AgentState}
use syndicate.State.Update.{no_update}
use syndicate.Host.{Host}
use syndicate.Graph.{
  Node, analyzer, architect, dispatch, executor, validator, oversight_git, escalate, advance, to,
  build_graph,
}
use syndicate.Engine.{Engine, Run, Ending}
use syndicate.Scripts.Checks.{require}
use syndicate.Scripts.RunRealIssue.{ainvoke}

abbrev pub expected_transitions : List String
expected_transitions =
    "analyzer" ∷ "architect" ∷ "dispatch" ∷ "executor" ∷ "validator" ∷ "oversight_git" ∷ "advance"
    ∷ "dispatch" ∷ "END" ∷ []

-- The name under which the builder knows a node.
unfoldable pub name_of : Node → String
name_of analyzer = "analyzer"
name_of architect = "architect"
name_of dispatch = "dispatch"
name_of executor = "executor"
name_of validator = "validator"
name_of oversight_git = "oversight_git"
name_of escalate = "escalate"
name_of advance = "advance"

-- `==` on lists of texts
unfoldable pub same_texts : List String → List String → Bool
same_texts [] [] = true
same_texts [] (t ∷ ts) = false
same_texts (s ∷ ss) [] = false
same_texts (s ∷ ss) (t ∷ ts) = str_eq s t && same_texts ss ts

module _ {W : Type 0} where
  -- The names of the chunks, if the run does not raise.
  abbrev pub chunks : Run W → Ending → Result (List String)
  chunks run Ending.completed = ok (map (λ update. name_of update.0) run.updates)
  chunks run (Ending.failed x) = raised x
  chunks run Ending.out_of_steps = raised (external "GraphRecursionError")

  module _ (engine : Engine W) (host : Host W) where
    -- `async for chunk in app.astream(initial_state)`, with the default limit.
    unfoldable pub astream : AgentState → Exec W (List String)
    astream s w =
        let run = engine.stream (build_graph host) 25 (to (build_graph host).entry_point) s w in
        (chunks run run.ending, run.world)

    unfoldable pub main : Exec W (Unit {0})
    main = do
      names ← astream no_update
      let transitions = names ++ ("END" ∷ [])
      require (same_texts transitions expected_transitions)
      final_state ← ainvoke engine host no_update
      require (is_empty (or_nil final_state.attempt_log))
