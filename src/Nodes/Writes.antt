-- ===== src/Nodes/Writes.antt =====
-- Which keys the nodes write, and with what values.
use syndicate.Prelude.{
  ℕ, zero, suc, ◌+◌, ◌≤◌, String, ◌≡◌, ◌⊎◌, true, false, Option, none, some, List, [], ◌∷◌, arith,
  given, or_zero, is_empty, max,
}
use syndicate.Exec.Yields.{
  Yields, yields_rules, Yields-pure, Yields-bind, Yields-when, Yields-weaken,
}
use syndicate.State.{AgentState, Ticket, local_pass, escalated, done}
use syndicate.State.Update.{no_update}
use syndicate.Runtime.Base.{ActionResult, RuntimeClient}
use syndicate.Host.{Host}
use syndicate.Nodes.Config.{max_strikes}
use syndicate.Nodes.Executor.{ticket_of, run_dummies, attempts, executor_node}
use syndicate.Nodes.Validator.{validator_node}
use syndicate.Nodes.Oversight.{files_of, commit_files, strike, oversight_git_node}

-- The keys that neither the executor, the validator nor the oversight of git writes.
pub record KeepsRun (u : AgentState) : Type 0 where
  pub issue : u.issue ≡ none
  pub issue_analysis : u.issue_analysis ≡ none
  pub active_ticket : u.active_ticket ≡ none
  pub decision_ledger : u.decision_ledger ≡ none
  pub escalation_count : u.escalation_count ≡ none
  pub run_status : u.run_status ≡ none

-- The executor passes or escalates, and counts no strike beyond the budget.
pub record ExecutorWrites (before : ℕ) (u : AgentState) : Type 0 where
  pub keeps : KeepsRun u
  pub last_validation_passed : u.last_validation_passed ≡ none
  pub status : (u.ticket_status ≡ some local_pass) ⊎ (u.ticket_status ≡ some escalated)
  pub more : before ≤ or_zero (given u.strike_count (some before))
  pub capped : or_zero (given u.strike_count (some before)) ≤ max before max_strikes

-- A later start of the attempts stays within the budget of the earlier one.
ExecutorWrites-earlier :
    (before : ℕ) (u : AgentState)
    → suc before ≤ max before max_strikes
    → ExecutorWrites (before + 1) u
    → ExecutorWrites before u
ExecutorWrites-earlier before u h x = ground arith

module _ {W : Type 0} (host : Host W) (client : RuntimeClient W) where
  dummies-Writes :
      (before : ℕ) (actions log : List String)
      → Yields (ExecutorWrites before) (run_dummies host client log actions)
  unfolding run_dummies
  dummies-Writes before [] log = Yields-pure _ (ground arith)
  dummies-Writes before (action ∷ actions) log =
      Yields-bind _ _ λ result. dummies-Writes before actions _

  attempts-Writes :
      (ticket : Ticket) (left before : ℕ) (log : List String) (feedback : Option String)
      → before + left ≤ max before max_strikes
      → Yields (ExecutorWrites before) (attempts host client ticket left before log feedback)
  unfolding attempts
  attempts-Writes ticket zero before log feedback h = Yields-pure _ (ground arith)
  attempts-Writes ticket (suc left) before log feedback h = Yields-bind _ _ λ summary.
      Yields-bind _ _ λ (check : ActionResult).
        Yields-when _ _ _ (λ passed. Yields-pure _ (ground arith))
          λ failed.
            Yields-weaken _ (λ u. ExecutorWrites-earlier before u (omega arith))
              (attempts-Writes ticket left (before + 1) _ _ (omega arith))

-- The validator settles whether the ticket passed, and counts a strike if it did not.
pub record ValidatorWrites (before : ℕ) (u : AgentState) : Type 0 where
  pub keeps : KeepsRun u
  pub attempt_log : u.attempt_log ≡ none
  pub ticket_status : u.ticket_status ≡ none
  pub verdict :
      ((u.last_validation_passed ≡ some true) × (u.strike_count ≡ none))
      ⊎ ((u.last_validation_passed ≡ some false) × (u.strike_count ≡ some (before + 1)))

-- The oversight of git reports `DONE`, or had no files to commit, or counts a strike.
pub record OversightWrites (files : List String) (before : ℕ) (u : AgentState) : Type 0 where
  pub keeps : KeepsRun u
  pub last_validation_passed : u.last_validation_passed ≡ none
  pub outcome :
      ((u.ticket_status ≡ some done) × (u.strike_count ≡ none))
      ⊎ ((u.ticket_status ≡ none)
          × (((is_empty files ≡ true) × (u.strike_count ≡ none))
              ⊎ (u.strike_count ≡ some (before + 1))))

module _ {W : Type 0} (host : Host W) (s : AgentState) where
  pub executor-Writes : Yields (ExecutorWrites (or_zero s.strike_count)) (executor_node host s)
  unfolding executor_node
  executor-Writes = Yields-bind _ _ λ client.
      Yields-when _ _ _ (λ mock. dummies-Writes host client _ _ _)
        λ real. attempts-Writes host client _ _ _ _ _ (omega arith)

  pub validator-Writes : Yields (ValidatorWrites (or_zero s.strike_count)) (validator_node host s)
  unfolding validator_node
  validator-Writes = Yields-bind _ _ λ client.
      Yields-when _ _ _ (λ mock. Yields-pure _ (ground arith))
        λ real. Yields-bind _ _ λ (result : ActionResult).
          Yields-when _ _ _ (λ passed. Yields-pure _ (ground arith))
            λ failed. Yields-pure _ (ground arith)

  strike-Writes :
      (files log : List String) (reason : String)
      → OversightWrites files (or_zero s.strike_count) (strike s log reason)
  unfolding strike
  strike-Writes files log reason = ground arith

  done-Writes :
      (files log : List String)
      → OversightWrites files
          (or_zero s.strike_count)
          (record no_update { attempt_log = some log; ticket_status = some done })
  done-Writes files log = ground arith

  commit-Writes :
      (client : RuntimeClient W) (log : List String)
      → Yields
          (OversightWrites (files_of (ticket_of s)) (or_zero s.strike_count))
          (commit_files host client s log)
  unfolding commit_files
  commit-Writes client log = search (yields_rules, strike-Writes, done-Writes) depth 12

  pub oversight-Writes :
      Yields
        (OversightWrites (files_of (ticket_of s)) (or_zero s.strike_count))
        (oversight_git_node host s)
  unfolding oversight_git_node
  oversight-Writes = Yields-bind _ _ λ client. Yields-bind _ _ λ log.
      Yields-when _ _ _ (λ empty. Yields-pure _ (ground arith)) λ files. commit-Writes client log
