-- ===== src/Nodes/Ledger.antt =====
-- `escalate_node` and `advance_node` of syndicate/nodes.py
use syndicate.Prelude.{
  ◌+◌, ℤ, String, some, List, [], ◌∷◌, ◌++◌, exceeds, join, length, or_nil, or_zero, if◌then◌else◌,
}
use syndicate.State.{AgentState, DecisionSummary, escalated, halted_escalation_budget}
use syndicate.State.Update.{no_update}

unfoldable pub escalate_node : ℤ → AgentState → AgentState
escalate_node max_escalations s =
    let count = or_zero s.escalation_count + 1 in
    let result : AgentState = record no_update {
      ticket_status = some escalated;
      escalation_count = some count;
    } in
    if exceeds count max_escalations
    then record result { run_status = some halted_escalation_budget }
    else result

-- `separator.join(log) if log else default`
unfoldable pub join_or : String → List String → String
join_or default [] = default
join_or default (line ∷ log) = join "; " (line ∷ log)

unfoldable pub advance_node : AgentState → AgentState
unfolding join_or
advance_node s =
    let log = or_nil s.attempt_log in
    let summary : DecisionSummary = record {
      summary = join_or "no attempts" log;
      attempt_count = length log;
    } in
    record no_update {
      decision_ledger = some (or_nil s.decision_ledger ++ (summary ∷ []));
      attempt_log = some [];
    }
