-- ===== src/Scripts/Escalation.antt =====
-- scripts/verify_step7_escalation.py and scripts/verify_step7_escalation_budget.py
use syndicate.Prelude.{
  ℕ, ℤ, pos, negsuc, String, Bool, true, false, ◌&&◌, Option, none, some, List, [], ◌∷◌, ◌==◌,
  is_empty, is_none, or_nil,
}
use syndicate.Exec.{Exec, ◌>>◌}
use syndicate.State.{
  AgentState, DecisionSummary, Ticket, empty_ticket, pending, is_escalated, is_halted,
}
use syndicate.State.Update.{no_update, overlay}
use syndicate.Nodes.Ledger.{escalate_node, advance_node}
use syndicate.Graph.{Target, halt, to, dispatch_router}
use syndicate.Server.Attempts.{contains}
use syndicate.Scripts.Checks.{require}

-- `route == END`
abbrev pub is_halt : Target → Bool
is_halt halt = true
is_halt (to at) = false

-- `state.get(key) == n` on a count
abbrev pub has_count : Option ℕ → ℕ → Bool
has_count none n = false
has_count (some m) n = m == n

-- `attempt_log == []`
abbrev pub is_empty_log : Option (List String) → Bool
is_empty_log none = false
is_empty_log (some log) = is_empty log

-- The state of the first script: a ticket whose strikes are used up.
abbrev pub struck_out : AgentState
struck_out = record no_update {
  active_ticket = some (record empty_ticket { id = some "ESC-TICKET-1" });
  attempt_log = some (
      "strike=1 fast_check exit_code=1 output='boom'"
      ∷ "strike=2 fast_check exit_code=1 output='boom again'"
      ∷ "strike=3 fast_check exit_code=1 output='boom once more'" ∷ []);
  strike_count = some 3;
  decision_ledger = some [];
}

-- `len(ledger) == 1`, and what the script asks of the one entry.
abbrev pub is_distilled : List DecisionSummary → Bool
is_distilled (entry ∷ []) = entry.attempt_count == 3 && contains "boom" entry.summary
is_distilled _ = false

-- `_MAX_ESCALATIONS == 1`
abbrev pub is_budget_of_one : ℤ → Bool
is_budget_of_one (pos n) = n == 1
is_budget_of_one (negsuc n) = false

abbrev pub ticket_named : String → Ticket
ticket_named name = record empty_ticket { id = some name }

module _ {W : Type 0} (max_escalations : ℤ) where
  -- verify_step7_escalation.py
  unfoldable pub verify_escalation : Exec W (Unit {0})
  verify_escalation = do
    let escalated_state = overlay struck_out (escalate_node max_escalations struck_out)
    require (is_escalated escalated_state.ticket_status)
    require (is_empty (or_nil escalated_state.decision_ledger))
    let advanced = overlay escalated_state (advance_node escalated_state)
    require (is_distilled (or_nil advanced.decision_ledger))
    require (is_empty_log advanced.attempt_log)
    require (is_halt (dispatch_router advanced))

  -- verify_step7_escalation_budget.py
  unfoldable pub verify_budget : Exec W (Unit {0})
  verify_budget = do
    require (is_budget_of_one max_escalations)
    let state = record no_update { active_ticket = some (ticket_named "TICKET-1") }
    let first = overlay state (escalate_node max_escalations state)
    require (has_count first.escalation_count 1)
    require (is_none first.run_status)
    require (is_halt (dispatch_router first))
    let next = record first {
      active_ticket = some (ticket_named "TICKET-2");
      ticket_status = some pending;
    }
    let second = overlay next (escalate_node max_escalations next)
    require (has_count second.escalation_count 2)
    require (is_halted second.run_status)
    require (is_halt (dispatch_router second))
