-- ===== src/Server/Steps.antt =====
-- The steps by which the task of a run changes its record, between which other tasks may look at it.
use syndicate.Prelude.{ℕ, ◌≡◌, refl, String, Option, none, some, List, [], ◌∷◌}
use syndicate.State.{AgentState}
use syndicate.Host.{Host}
use syndicate.Graph.{
  Node, analyzer, architect, dispatch, executor, validator, oversight_git, escalate, advance,
}
use syndicate.Engine.{Engine, Ending}
use syndicate.Server.Value.{Fields, update_fields}
use syndicate.Server.Events.{Python, EventKind}
use syndicate.Server.Registry.{RunState, RunRecord}
use syndicate.Server.Attempts.{logged_attempts, extract_attempts}
use syndicate.Server.Runner.{
  node_name, extract_escalation, send, send_attempts, send_escalation, send_update, send_updates,
  send_ending, started, drive_run,
}

module _ (py : Python) (now : ℕ → String) where
  -- An event is sent, or what is no part of the backlog changes.
  pub data Step : RunRecord → RunRecord → Type 0 where
    sends :
        (kind : EventKind) (at : Option String) (payload : Fields) (r : RunRecord)
        → Step r (send py now kind at payload r)
    keeps : (r q : RunRecord) → q.backlog ≡ r.backlog → q.seq_counter ≡ r.seq_counter → Step r q

  pub data Reach (r : RunRecord) : RunRecord → Type 0 where
    here : Reach r r
    next : {q q' : RunRecord} → Reach r q → Step q q' → Reach r q'

  pub Reach-trans : {p q r : RunRecord} → Reach p q → Reach q r → Reach p r
  Reach-trans h here = h
  Reach-trans h (next g s) = next (Reach-trans h g) s

  logged-Reach : (log : Option (List String)) (r : RunRecord) → Reach r (logged_attempts py log r).0
  logged-Reach none r = here
  logged-Reach (some log) r = next here (keeps r _ refl refl)

  extract_attempts-Reach :
      (n : Node) (u : AgentState) (r : RunRecord) → Reach r (extract_attempts py n u r).0
  unfolding extract_attempts
  extract_attempts-Reach executor u r = logged-Reach u.attempt_log r
  extract_attempts-Reach analyzer u r = here
  extract_attempts-Reach architect u r = here
  extract_attempts-Reach dispatch u r = here
  extract_attempts-Reach validator u r = here
  extract_attempts-Reach oversight_git u r = here
  extract_attempts-Reach escalate u r = here
  extract_attempts-Reach advance u r = here

  send_attempts-Reach :
      (at : String) (ps : List Fields) (r : RunRecord) → Reach r (send_attempts py now at ps r)
  unfolding send_attempts
  send_attempts-Reach at [] r = here
  send_attempts-Reach at (p ∷ ps) r =
      Reach-trans (next here (sends EventKind.attempt (some at) p r)) (send_attempts-Reach at ps _)

  send_escalation-Reach :
      (at : String) (p : Option Fields) (r : RunRecord) → Reach r (send_escalation py now at p r)
  send_escalation-Reach at none r = here
  send_escalation-Reach at (some p) r = next here (sends EventKind.escalation (some at) p r)

  send_update-Reach :
      (n : Node) (u : AgentState) (r : RunRecord) → Reach r (send_update py now n u r)
  unfolding send_update extract_escalation
  send_update-Reach n u r =
      let name = node_name n in
      let updated = send py now EventKind.node_update (some name) (update_fields u) r in
      let found = extract_attempts py n u updated in
      let attempted = send_attempts py now name found.1 found.0 in
      let escalated = extract_escalation u attempted in
      let before = next here (sends EventKind.node_update (some name) (update_fields u) r) in
      Reach-trans (Reach-trans before (extract_attempts-Reach n u updated)) (
        Reach-trans
          (next (send_attempts-Reach name found.1 found.0) (keeps attempted escalated.0 refl refl))
          (send_escalation-Reach name escalated.1 escalated.0))

  send_updates-Reach :
      (us : List (Node × AgentState)) (r : RunRecord) → Reach r (send_updates py now us r)
  unfolding send_updates
  send_updates-Reach [] r = here
  send_updates-Reach ((n, u) ∷ us) r =
      Reach-trans (send_update-Reach n u r) (send_updates-Reach us _)

  send_ending-Reach :
      (message : Ending → String) (ending : Ending) (s : AgentState) (r : RunRecord)
      → Reach r (send_ending py now message ending s r)
  unfolding send_ending
  send_ending-Reach message Ending.completed s r =
      next (next here (keeps r _ refl refl)) (sends _ _ _ _)
  send_ending-Reach message (Ending.failed x) s r =
      next (next here (keeps r _ refl refl)) (sends _ _ _ _)
  send_ending-Reach message Ending.out_of_steps s r =
      next (next here (keeps r _ refl refl)) (sends _ _ _ _)

  -- The record that `drive_run` leaves is reached by such steps.
  pub drive_run-Reach :
      {W : Type 0} (engine : Engine W) (host : Host W) (message : Ending → String) (r : RunRecord)
      (w : W)
      → Reach r (drive_run py now engine host message r w).0
  unfolding drive_run started
  drive_run-Reach engine host message r w =
      Reach-trans
        (next (next here (keeps r (record r { status = RunState.running }) refl refl))
          (sends EventKind.run_started none _ _))
        (Reach-trans (send_updates-Reach _ _) (send_ending-Reach message _ _ _))
