-- ===== src/State/Update.antt =====
-- Updates of the state: what a node returns.
use syndicate.Prelude.{none, given}
use syndicate.State.{AgentState}

-- `{}`
abbrev pub no_update : AgentState
no_update = record {
  issue = none;
  issue_analysis = none;
  active_ticket = none;
  attempt_log = none;
  decision_ledger = none;
  ticket_status = none;
  last_validation_passed = none;
  strike_count = none;
  validation_diagnosis = none;
  escalation_count = none;
  run_status = none;
}

-- The state after an update: each key that is given replaces the old value.
abbrev pub overlay : AgentState → AgentState → AgentState
overlay s u = record {
  issue = given u.issue s.issue;
  issue_analysis = given u.issue_analysis s.issue_analysis;
  active_ticket = given u.active_ticket s.active_ticket;
  attempt_log = given u.attempt_log s.attempt_log;
  decision_ledger = given u.decision_ledger s.decision_ledger;
  ticket_status = given u.ticket_status s.ticket_status;
  last_validation_passed = given u.last_validation_passed s.last_validation_passed;
  strike_count = given u.strike_count s.strike_count;
  validation_diagnosis = given u.validation_diagnosis s.validation_diagnosis;
  escalation_count = given u.escalation_count s.escalation_count;
  run_status = given u.run_status s.run_status;
}
