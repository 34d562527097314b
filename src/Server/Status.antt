-- ===== src/Server/Status.antt =====
-- The status that `drive_run` of server/runner.py gives to a run of the graph.
use mathlib.Core.Logic.{◌⊎◌, inl, inr}
use syndicate.Prelude.{
  ℕ, ◌≡◌, refl, String, Bool-cases, true, false, none, some, List, [], ◌∷◌, truthy_flag, arith,
}
use syndicate.Exec.{Exception}
use syndicate.State.{AgentState, is_escalated}
use syndicate.Host.{Host}
use syndicate.Engine.{Engine, IsLanggraph, Ending}
use syndicate.Run.Outcome.{distilled, Finished, stream-Outcome}
use syndicate.Server.Events.{Python}
use syndicate.Server.Registry.{RunState, RunRecord, next_seq, emit}
use syndicate.Server.Runner.{build_initial_state, send, send_ending, graph_run, drive_run}

-- The verdicts on a run: the ticket's changes are validated; or the ticket is escalated; or a node
-- raised an exception. In the first two cases the ledger has one entry.
abbrev pub IsVerdict : AgentState → Ending → RunState → Type 0
IsVerdict s ending status =
    ((status ≡ RunState.completed)
      × (is_escalated s.ticket_status ≡ false)
      × (truthy_flag s.last_validation_passed ≡ true)
      × (log : List String) × (s.decision_ledger ≡ some (distilled log ∷ [])))
    ⊎ ((status ≡ RunState.escalated)
        × (is_escalated s.ticket_status ≡ true)
        × (log : List String) × (s.decision_ledger ≡ some (distilled log ∷ [])))
    ⊎ ((status ≡ RunState.failed) × (x : Exception) × (ending ≡ Ending.failed x))

module _ {W : Type 0} (host : Host W) (py : Python) (now : ℕ → String)
    (message : Ending → String) where
  send_ending-completed :
      (s₀ s : AgentState) (r : RunRecord)
      → s₀.decision_ledger ≡ none
      → Finished host s₀ s
      → IsVerdict s Ending.completed (send_ending py now message Ending.completed s r).status
  unfolding send_ending send emit next_seq
  send_ending-completed s₀ s r new h =
      let entry : s.decision_ledger ≡ some (distilled h.log ∷ []) = rw (h.ledger, new) refl in
      elim (Bool-cases (is_escalated s.ticket_status)) [
        | inl e ↦ rw e (inr (inl (refl, refl, h.log, entry)))
        | inr e ↦ elim h.settled [
          | inl (e', _, _) ↦ absurd (cc (e, e'))
          | inr (v, _, _) ↦ rw e (inl (refl, refl, v, h.log, entry))
        ]
      ]

  send_ending-failed :
      (s : AgentState) (x : Exception) (r : RunRecord)
      → (send_ending py now message (Ending.failed x) s r).status ≡ RunState.failed
  unfolding send_ending send emit next_seq
  send_ending-failed s x r = refl

module _ {W : Type 0} (engine : Engine W) (lawful : IsLanggraph engine) (host : Host W)
    (py : Python) (now : ℕ → String) (message : Ending → String) where
  -- The status of a record that was driven, for every engine that the documentation describes, agrees
  -- with the run of the graph: `completed` if the ticket is validated and not escalated, `escalated`
  -- if it is escalated, each with one entry in the ledger, and `failed` if a node raised an exception.
  pub drive_run-IsVerdict :
      (r : RunRecord) (w : W)
      → IsVerdict
          (graph_run py now engine host message r w).state
          (graph_run py now engine host message r w).ending
          (drive_run py now engine host message r w).0.status
  unfolding drive_run build_initial_state graph_run
  drive_run-IsVerdict r w =
      elim (stream-Outcome engine lawful host 25 (build_initial_state r.run_id r.raw_request) w
        (omega arith) refl (refl, refl)) [
          | inl (e, h) ↦ rw e (
              send_ending-completed host py now message (build_initial_state r.run_id r.raw_request)
                _ _ refl h)
          | inr (x, e) ↦ rw e (inr (inr (send_ending-failed host py now message _ x _, x, refl)))
        ]
