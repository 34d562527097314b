-- ===== src/Server/Release.antt =====
-- A run's task in server/app.py, from the request to the release.
use text.Mathlib.TextPositions.{eq_refl}
use syndicate.Prelude.{ℕ, ◌≡◌, refl, String, Bool-cases, none, some, List, ◌⊎◌, inl, inr}
use syndicate.Prelude.Maps.{find-put}
use syndicate.State.{AgentState, is_escalated}
use syndicate.Host.{Host}
use syndicate.Engine.{Engine, Ending}
use syndicate.Server.Events.{Python}
use syndicate.Server.Registry.{
  RunState, RunRecord, RunRegistry, new_record, next_seq, emit, try_start, finish, get,
}
use syndicate.Server.Runner.{send, send_ending, drive_run}
use syndicate.Server.App.{create_run, accepted, run_and_release}
use syndicate.Server.OneActive.{
  Event, IsHeld, after_events, after_events-IsActive, accepted-IsActive,
}

-- The statuses in which a run stays.
abbrev pub IsFinal : RunState → Type 0
IsFinal status =
    (status ≡ RunState.completed) ⊎ (status ≡ RunState.escalated) ⊎ (status ≡ RunState.failed)

module _ {W : Type 0} (py : Python) (now : ℕ → String) (engine : Engine W) (host : Host W)
    (message : Ending → String) where
  send_ending-IsFinal :
      (ending : Ending) (s : AgentState) (r : RunRecord)
      → IsFinal (send_ending py now message ending s r).status
  unfolding send_ending send emit next_seq
  send_ending-IsFinal Ending.completed s r = elim (Bool-cases (is_escalated s.ticket_status)) [
    | inl e ↦ rw e (inr (inl refl))
    | inr e ↦ rw e (inl refl)
  ]
  send_ending-IsFinal (Ending.failed x) s r = inr (inr refl)
  send_ending-IsFinal Ending.out_of_steps s r = inr (inr refl)

  -- Whatever happens between a request that was accepted and the end of its task, when the task has
  -- ended no run is active, the registry holds the record that the task drove, its status is final,
  -- and the next request is accepted.
  pub run_and_release-IsFinal :
      (created_at : ℕ) (run_id raw_request : String) (g : RunRegistry) (es : List Event) (w : W)
      (c : ℕ) (i q : String)
      → g.active_run_id ≡ none
      → IsHeld run_id es
      → let r = new_record created_at run_id raw_request in
        let h =
          (run_and_release py now engine host message r
            (after_events es (create_run created_at run_id raw_request g).0)
            w).0 in
        (h.active_run_id ≡ none)
        × (get run_id h ≡ some (drive_run py now engine host message r w).0)
        × IsFinal (drive_run py now engine host message r w).0.status
        × ((create_run c i q h).1 ≡ accepted i)
  unfolding run_and_release drive_run finish get create_run try_start new_record
  run_and_release-IsFinal created_at run_id raw_request g es w c i q free held =
      let a =
        after_events-IsActive run_id es _ held
          (accepted-IsActive created_at run_id raw_request g free) in
      (
        rw (a.active, eq_refl run_id) refl,
        rw (a.active, eq_refl run_id)
            (find-put run_id
              (drive_run py now engine host message (new_record created_at run_id raw_request) w).0
              (after_events es (create_run created_at run_id raw_request g).0).runs),
        send_ending-IsFinal _ _ _,
        rw (a.active, eq_refl run_id) refl,
      )
