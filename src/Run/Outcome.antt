-- ===== src/Run/Outcome.antt =====
-- What a completed run leaves in the state.
use syndicate.Prelude.{
  ℕ, zero, suc, ◌≡◌, refl, ◌⊎◌, inl, inr, true, false, some, List, [], ◌∷◌, ◌++◌, arith, or_zero,
  or_nil, truthy_flag, exceeds, length, join, ◌≤◌, String,
}
use syndicate.Exec.{Result, ok, raised, Exception}
use syndicate.Exec.Yields.{Returned}
use syndicate.State.{AgentState, DecisionSummary, is_escalated, is_halted}
use syndicate.State.Update.{overlay}
use syndicate.Host.{Host}
use syndicate.Nodes.Ledger.{join_or, escalate_node, advance_node}
use syndicate.Graph.{
  Node, Target, halt, to, analyzer, architect, dispatch, executor, validator, oversight_git,
  escalate, advance, edge_of, build_graph,
}
use syndicate.Graph.Writes.{NodeWrites, node-Writes}
use syndicate.Run.Terminates.{IsEnough, step-IsEnough, not-IsEnough-zero}
use syndicate.Engine.{Engine, IsLanggraph, Run, completed, failed, run, settle, stream-run}

-- The router of `dispatch` sends the state of a run that is not halted to the executor.
abbrev pub IsPending : AgentState → Type 0
IsPending s =
    (is_escalated s.ticket_status ≡ false) × (truthy_flag s.last_validation_passed ≡ false)

-- The entry of the ledger for a log of attempts.
abbrev pub distilled : List String → DecisionSummary
distilled [] = record { summary = "no attempts"; attempt_count = 0 }
distilled (line ∷ log) = record {
  summary = join "; " (line ∷ log);
  attempt_count = length (line ∷ log);
}

summary-distilled :
    (log : List String)
    → record { summary = join_or "no attempts" log; attempt_count = length log } ≡ distilled log
unfolding join_or
summary-distilled [] = refl
summary-distilled (line ∷ log) = refl

module _ {W : Type 0} (host : Host W) (s₀ : AgentState) where
  -- The ticket is being worked on: the ledger and the run's status are as they were.
  pub record Started (s : AgentState) : Type 0 where
    pub ledger : s.decision_ledger ≡ s₀.decision_ledger
    pub escalations : s.escalation_count ≡ s₀.escalation_count
    pub halted : s.run_status ≡ s₀.run_status
    pub going : is_halted s₀.run_status ≡ false

  -- An escalated ticket is counted once, and halts the run if the count passes the budget. A ticket
  -- that is not counted has passed its validation.
  abbrev pub IsSettled : AgentState → Type 0
  IsSettled s =
      ((is_escalated s.ticket_status ≡ true)
        × (or_zero s.escalation_count ≡ suc (or_zero s₀.escalation_count))
        × (is_halted s.run_status
            ≡ exceeds (suc (or_zero s₀.escalation_count)) host.max_escalations))
      ⊎ ((truthy_flag s.last_validation_passed ≡ true)
          × (s.escalation_count ≡ s₀.escalation_count)
          × (is_halted s.run_status ≡ false))

  -- The attempts are distilled into one new entry of the ledger, and the log is reset.
  pub record Finished (s : AgentState) : Type 0 where
    pub settled : IsSettled s
    pub log : List String
    pub ledger : s.decision_ledger ≡ some (or_nil s₀.decision_ledger ++ (distilled log ∷ []))
    pub attempt_log : s.attempt_log ≡ some []

  abbrev pub Invariant : Target → AgentState → Type 0
  Invariant halt s = Finished s
  Invariant (to analyzer) s = Started s × IsPending s
  Invariant (to architect) s = Started s × IsPending s
  Invariant (to dispatch) s = (Started s × IsPending s) ⊎ Finished s
  Invariant (to executor) s = Started s
  Invariant (to validator) s = Started s
  Invariant (to oversight_git) s = Started s × (truthy_flag s.last_validation_passed ≡ true)
  Invariant (to escalate) s = Started s
  Invariant (to advance) s = (s.decision_ledger ≡ s₀.decision_ledger) × IsSettled s

  step-Invariant :
      (n : Node) (s u : AgentState)
      → NodeWrites host n s u
      → Invariant (to n) s
      → Invariant (edge_of n (overlay s u)) (overlay s u)
  unfolding edge_of escalate_node advance_node
  step-Invariant analyzer s u x h = ground arith
  step-Invariant architect s u x h = ground arith
  step-Invariant dispatch s u x h = ground arith
  step-Invariant executor s u x h = ground arith
  step-Invariant validator s u x h = ground arith
  step-Invariant oversight_git s u x h = ground arith
  step-Invariant escalate s u x h = ground arith
  step-Invariant advance s u x (kept, settled) = rw x (
      inr (record {
        settled = settled;
        log = or_nil s.attempt_log;
        ledger = cc (kept, summary-distilled (or_nil s.attempt_log));
        attempt_log = refl;
      }))

  -- How a run may end: at `END`, or by an exception.
  abbrev pub IsOutcome : Run W → Type 0
  IsOutcome r =
      ((r.ending ≡ completed) × Finished r.state) ⊎ ((x : Exception) × (r.ending ≡ failed x))

  settle-Outcome :
      (limit : ℕ) (n : Node) (s : AgentState) (r : Result AgentState) (w : W)
      → ((t : Target) (s' : AgentState) (v : W)
          → IsEnough t s' limit
          → Invariant t s'
          → IsOutcome (run (build_graph host) limit t s' v))
      → Returned (NodeWrites host n s) r
      → IsEnough (to n) s (suc limit)
      → Invariant (to n) s
      → IsOutcome (settle (build_graph host) (run (build_graph host) limit) n s r w)
  unfolding build_graph
  settle-Outcome limit n s (raised x) w ih y e h = inr (x, refl)
  settle-Outcome limit n s (ok u) w ih y e h =
      ih _ _ w (step-IsEnough host n s u limit y e) (step-Invariant n s u y h)

  run-Outcome :
      (limit : ℕ) (t : Target) (s : AgentState) (w : W)
      → IsEnough t s limit
      → Invariant t s
      → IsOutcome (run (build_graph host) limit t s w)
  unfolding run
  run-Outcome zero halt s w e h = inl (refl, h)
  run-Outcome (suc limit) halt s w e h = inl (refl, h)
  run-Outcome zero (to n) s w e h = absurd (not-IsEnough-zero n s e)
  run-Outcome (suc limit) (to n) s w e h =
      settle-Outcome limit n s _ _ (run-Outcome limit)
        (unfold build_graph in (node-Writes host n s).at w) e h

module _ {W : Type 0} (engine : Engine W) (lawful : IsLanggraph engine) (host : Host W) where
  -- A run from a state that is neither halted, escalated nor validated, with a limit of 15
  -- supersteps or more, ends by an exception of a node, or completes. If it completes then the
  -- ledger has exactly one new entry, which is distilled from a log of attempts, and the log is
  -- reset. Moreover the ticket is escalated, was counted once against the budget, and the run is
  -- halted exactly if the count exceeds the budget; or the last validation passed, nothing was
  -- counted, and the run is not halted.
  pub stream-Outcome :
      (limit : ℕ) (s : AgentState) (w : W)
      → 15 ≤ limit
      → is_halted s.run_status ≡ false
      → IsPending s
      → IsOutcome host s
          (engine.stream (build_graph host) limit (to (build_graph host).entry_point) s w)
  unfolding build_graph
  stream-Outcome limit s w e going pending = rw (stream-run engine lawful) (
      run-Outcome host s limit (to analyzer) s w e
        (record { ledger = refl; escalations = refl; halted = refl; going = going }, pending))
