-- ===== src/Server/Runner.antt =====
-- server/runner.py: drives one run and turns its updates into events.
use syndicate.Prelude.{
  ℕ, String, ◌<>◌, Bool, false, Option, none, some, List, [], ◌∷◌, ◌==◌, not, or_zero,
  if◌then◌else◌,
}
use syndicate.State.{AgentState, empty_ticket, is_escalated, RunStatus}
use syndicate.State.Update.{no_update}
use syndicate.Host.{Host}
use syndicate.Graph.{
  Node, analyzer, architect, dispatch, executor, validator, oversight_git, escalate, advance, to,
  build_graph,
}
use syndicate.Engine.{Engine, Run, Ending}
use syndicate.Server.Value.{
  null, nullable, natural, text, Fields, end, field, update_fields, ticket_status_value,
  run_status_value,
}
use syndicate.Server.Events.{
  Python, EventKind, run_started, node_update, attempt, escalation, run_completed, run_failed,
  first_chars, make_envelope,
}
use syndicate.Server.Registry.{RunState, RunRecord, next_seq, emit, is_text}
use syndicate.Server.Attempts.{extract_attempts}

abbrev pub ui_workspace_root : String
ui_workspace_root = "/home/openhands/syndicate-workspace/ui-runs"

unfoldable pub build_initial_state : String → String → AgentState
build_initial_state run_id raw_request = record no_update {
  active_ticket = some (record empty_ticket {
    id = some run_id;
    title = some (first_chars 80 raw_request);
    raw_request = some raw_request;
    workspace_dir = some (ui_workspace_root <> "/" <> run_id);
    verification_command = some "python3 -m pytest -q";
    files_changed = some [];
  });
}

-- The name under which `build_graph` adds a node.
pub node_name : Node → String
node_name analyzer = "analyzer"
node_name architect = "architect"
node_name dispatch = "dispatch"
node_name executor = "executor"
node_name validator = "validator"
node_name oversight_git = "oversight_git"
node_name escalate = "escalate"
node_name advance = "advance"

-- Whether a count or a status is given and differs from the last one.
abbrev pub new_count : Option ℕ → ℕ → Bool
new_count none last = false
new_count (some n) last = not (n == last)

abbrev pub new_status : Option RunStatus → Option String → Bool
new_status none last = false
new_status (some s) last = not (is_text last (run_status_value s))

abbrev status_text : Option RunStatus → Option String
status_text none = none
status_text (some s) = some (run_status_value s)

-- `payload or None`
abbrev pub or_none : Fields → Option Fields
or_none end = none
or_none (field k v fs) = some (field k v fs)

unfoldable pub extract_escalation : AgentState → RunRecord → RunRecord × Option Fields
extract_escalation u r =
    let counted = new_count u.escalation_count r.last_escalation_count in
    let changed = new_status u.run_status r.last_run_status in
    let ticket =
      if is_escalated u.ticket_status then field "ticket_status" (text "escalated") end else end in
    let status =
      if changed then field "run_status" (nullable (status_text u.run_status)) ticket else ticket in
    let payload =
      if counted
      then field "escalation_count" (natural (or_zero u.escalation_count)) status
      else status in
    (
      record r {
        last_escalation_count =
            if counted then or_zero u.escalation_count else r.last_escalation_count;
        last_run_status = if changed then status_text u.run_status else r.last_run_status;
      },
      or_none payload,
    )

-- `now n` is the time at which the envelope with number `n` is made.
module _ (py : Python) (now : ℕ → String) where
  -- `record.emit(make_envelope(seq=record.next_seq(), ...))`
  unfoldable pub send : EventKind → Option String → Fields → RunRecord → RunRecord
  unfolding next_seq
  send kind node payload r =
      emit (next_seq r).0
        (make_envelope py (now (next_seq r).1) (some (next_seq r).1) r.run_id kind node payload)

  unfoldable pub send_attempts : String → List Fields → RunRecord → RunRecord
  send_attempts node [] r = r
  send_attempts node (payload ∷ payloads) r =
      send_attempts node payloads (send attempt (some node) payload r)

  abbrev pub send_escalation : String → Option Fields → RunRecord → RunRecord
  send_escalation node none r = r
  send_escalation node (some payload) r = send escalation (some node) payload r

  unfoldable pub send_update : Node → AgentState → RunRecord → RunRecord
  send_update n u r =
      let updated = send node_update (some (node_name n)) (update_fields u) r in
      let found = extract_attempts py n u updated in
      let attempted = send_attempts (node_name n) found.1 found.0 in
      let escalated = extract_escalation u attempted in
      send_escalation (node_name n) escalated.1 escalated.0

  unfoldable pub send_updates : List (Node × AgentState) → RunRecord → RunRecord
  send_updates [] r = r
  send_updates ((n, u) ∷ updates) r = send_updates updates (send_update n u r)

  -- What follows the stream: the final snapshot, or the handler of an exception. `message` is
  -- `str(exc)`.
  unfoldable pub send_ending : (Ending → String) → Ending → AgentState → RunRecord → RunRecord
  send_ending message Ending.completed s r =
      send run_completed none
        (field "ticket_status"
          (elim s.ticket_status [ none ↦ null | some t ↦ text (ticket_status_value t) ]) end)
        (record r {
          status = if is_escalated s.ticket_status then RunState.escalated else RunState.completed;
        })
  send_ending message ending s r =
      send run_failed none (field "error" (text (message ending)) end)
        (record r { status = RunState.failed })

  module _ {W : Type 0} (engine : Engine W) (host : Host W) (message : Ending → String) where
    -- The run of the graph from the record's request.
    unfoldable pub graph_run : RunRecord → W → Run W
    graph_run r w =
        engine.stream (build_graph host) 25 (to (build_graph host).entry_point)
          (build_initial_state r.run_id r.raw_request) w

    unfoldable pub started : RunRecord → RunRecord
    started r =
        send run_started none (field "raw_request" (text r.raw_request) end)
          (record r { status = RunState.running })

    unfoldable pub drive_run : RunRecord → W → RunRecord × W
    unfolding started graph_run
    drive_run r w =
        let run = graph_run r w in
        (send_ending message run.ending run.state (send_updates run.updates (started r)), run.world)
