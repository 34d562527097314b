-- ===== src/State.antt =====
-- syndicate/state.py: the statuses, the ledger's entries and the state of a run. A key that a
-- dictionary lacks is `none`. An update that a node returns is a state too: the keys that it gives.
pub mod Update
use syndicate.Prelude.{ℕ, String, Bool, true, false, Option, none, some, List}

pub data TicketStatus : Type 0 where
  pending in_progress local_pass done escalated : TicketStatus

pub data RunStatus : Type 0 where
  running halted_escalation_budget : RunStatus

-- `status == TicketStatus.DONE`, and so on, for a key that may be missing.
abbrev pub is_done : Option TicketStatus → Bool
is_done (some done) = true
is_done _ = false

abbrev pub is_escalated : Option TicketStatus → Bool
is_escalated (some escalated) = true
is_escalated _ = false

abbrev pub is_halted : Option RunStatus → Bool
is_halted (some halted_escalation_budget) = true
is_halted _ = false

pub record DecisionSummary : Type 0 where
  pub summary : String
  pub attempt_count : ℕ

pub record GithubIssue : Type 0 where
  pub repo : Option String
  pub number : Option ℕ
  pub title : Option String
  pub body : Option String
  pub workspace_dir : Option String

-- The keys of `active_ticket` that the program reads or writes, at the types it gives them.
pub record Ticket : Type 0 where
  pub id : Option String
  pub ticket_id : Option String
  pub title : Option String
  pub raw_request : Option String
  pub intent : Option String
  pub files_changed : Option (List String)
  pub target_files : Option (List String)
  pub workspace_dir : Option String
  pub verification_command : Option String

-- `{}`
abbrev pub empty_ticket : Ticket
empty_ticket = record {
  id = none;
  ticket_id = none;
  title = none;
  raw_request = none;
  intent = none;
  files_changed = none;
  target_files = none;
  workspace_dir = none;
  verification_command = none;
}

-- An object that the model replied with: the keys that the program reads, at the types that the
-- prompts ask for, and the object's text.
pub record JsonObject : Type 0 where
  pub title : Option String
  pub intent : Option String
  pub files_changed : Option (List String)
  pub verification_command : Option String
  pub dumped : String

pub record AgentState : Type 0 where
  pub issue : Option GithubIssue
  pub issue_analysis : Option JsonObject
  pub active_ticket : Option Ticket
  pub attempt_log : Option (List String)
  pub decision_ledger : Option (List DecisionSummary)
  pub ticket_status : Option TicketStatus
  pub last_validation_passed : Option Bool
  pub strike_count : Option ℕ
  pub validation_diagnosis : Option (Option String)
  pub escalation_count : Option ℕ
  pub run_status : Option RunStatus
