-- ===== src/Server/Value.antt =====
-- The Python values of payloads: JSON, members of enumerations and data classes.
use syndicate.Prelude.{ℕ, ℤ, pos, String, Bool, Option, none, some, List, [], ◌∷◌}
use syndicate.State.{
  AgentState, TicketStatus, pending, in_progress, local_pass, done, escalated, RunStatus, running,
  halted_escalation_budget, DecisionSummary, GithubIssue, Ticket, JsonObject,
}

mutual
  -- `enum` holds the member's value, and `dataclass` the fields that `asdict` gives.
  pub data Value : Type 0 where
    null : Value
    boolean : Bool → Value
    number : ℤ → Value
    text : String → Value
    enum : String → Value
    dataclass : Fields → Value
    list : Items → Value
    dict : Fields → Value

  pub data Items : Type 0 where
    nil : Items
    cons : Value → Items → Items

  pub data Fields : Type 0 where
    end : Fields
    field : String → Value → Fields → Fields

abbrev pub natural : ℕ → Value
natural n = number (pos n)

-- `status.value`
pub ticket_status_value : TicketStatus → String
ticket_status_value pending = "pending"
ticket_status_value in_progress = "in_progress"
ticket_status_value local_pass = "local_pass"
ticket_status_value done = "done"
ticket_status_value escalated = "escalated"

pub run_status_value : RunStatus → String
run_status_value running = "running"
run_status_value halted_escalation_budget = "halted_escalation_budget"

-- A key that may be missing, in front of other keys.
abbrev pub optional {ℓ} : {A : Type ℓ} → String → (A → Value) → Option A → Fields → Fields
optional key f none rest = rest
optional key f (some a) rest = field key (f a) rest

pub texts : List String → Items
texts [] = nil
texts (t ∷ ts) = cons (text t) (texts ts)

abbrev text_list : List String → Value
text_list ts = list (texts ts)

-- A text, or `None`.
abbrev pub nullable : Option String → Value
nullable none = null
nullable (some t) = text t

issue_value : GithubIssue → Value
issue_value i = dict (
    optional "repo" text i.repo (
      optional "number" natural i.number (
        optional "title" text i.title
          (optional "body" text i.body (optional "workspace_dir" text i.workspace_dir end)))))

object_value : JsonObject → Value
object_value o = dict (
    optional "title" text o.title (
      optional "intent" text o.intent (
        optional "files_changed" text_list o.files_changed
          (optional "verification_command" text o.verification_command end))))

ticket_value : Ticket → Value
ticket_value t = dict (
    optional "id" text t.id (
      optional "ticket_id" text t.ticket_id (
        optional "title" text t.title (
          optional "raw_request" text t.raw_request (
            optional "intent" text t.intent (
              optional "files_changed" text_list t.files_changed (
                optional "target_files" text_list t.target_files (
                  optional "workspace_dir" text t.workspace_dir
                    (optional "verification_command" text t.verification_command end)))))))))

entries : List DecisionSummary → Items
entries [] = nil
entries (e ∷ es) =
    cons
      (dataclass
        (field "summary" (text e.summary) (field "attempt_count" (natural e.attempt_count) end)))
      (entries es)

-- `dict(delta)`: the keys that an update gives.
pub update_fields : AgentState → Fields
unfolding issue_value object_value ticket_value entries texts ticket_status_value run_status_value
update_fields u = optional "issue" issue_value u.issue (
    optional "issue_analysis" object_value u.issue_analysis (
      optional "active_ticket" ticket_value u.active_ticket (
        optional "attempt_log" text_list u.attempt_log (
          optional "decision_ledger" (λ es. list (entries es)) u.decision_ledger
            (optional "ticket_status" (λ s. enum (ticket_status_value s)) u.ticket_status
              (optional "last_validation_passed" boolean u.last_validation_passed (
                optional "strike_count" natural u.strike_count (
                  optional "validation_diagnosis" nullable u.validation_diagnosis (
                    optional "escalation_count" natural u.escalation_count (
                      optional "run_status" (λ s. enum (run_status_value s)) u.run_status
                        end))))))))))
