-- ===== src/Nodes/Executor.antt =====
-- `_run_fast_checks` and `executor_node` of syndicate/nodes.py
use syndicate.Prelude.{
  ℕ, zero, suc, ◌+◌, ◌-◌, pos, String, ◌<>◌, Option, none, some, List, [], ◌∷◌, ◌++◌, str, str_int,
  is_zero, or_nil, or_zero, or_text, or_else_text,
}
use mathlib.Core.Option
use syndicate.Exec.{Exec, pure, when◌perform◌otherwise◌, ◌>>=◌}
use syndicate.State.{AgentState, Ticket, empty_ticket, local_pass, escalated}
use syndicate.State.Update.{no_update}
use syndicate.Runtime.Base.{ActionResult, RuntimeClient}
use syndicate.Host.{Host}
use syndicate.Nodes.Config.{dummy_actions, fast_check_actions, max_strikes, default_workspace_dir}
use syndicate.Nodes.Loop.{run_agentic_loop}

-- `state.get('active_ticket') or {}`
abbrev pub ticket_of : AgentState → Ticket
ticket_of s = Option.get_or s.active_ticket empty_ticket

-- `ticket.get('workspace_dir') or _DEFAULT_WORKSPACE_DIR`
abbrev pub workspace_of : Ticket → String
workspace_of ticket = or_text ticket.workspace_dir default_workspace_dir

-- `ticket.get('id') or ticket.get('ticket_id')`
abbrev pub id_of : Ticket → Option String
id_of ticket = or_else_text ticket.id ticket.ticket_id

module _ {W : Type 0} (client : RuntimeClient W) (cwd : String) where
  unfoldable pub run_checks : List String → Exec W ActionResult
  run_checks [] = pure (record { exit_code = pos 0; output = "fast checks passed" })
  run_checks (action ∷ actions) = do
    result ← client.run_action action (some cwd) none
    when is_zero result.exit_code perform run_checks actions otherwise pure result

  unfoldable pub run_fast_checks : Exec W ActionResult
  run_fast_checks = run_checks fast_check_actions

module _ {W : Type 0} (host : Host W) (client : RuntimeClient W) where
  -- The mock branch: its actions run with no directory.
  unfoldable pub run_dummies : List String → List String → Exec W AgentState
  run_dummies log [] =
      pure (record no_update { attempt_log = some log; ticket_status = some local_pass })
  run_dummies log (action ∷ actions) = do
    result ← client.run_action action none none
    run_dummies
        (log
          ++ (("action="
                <> host.repr action
                <> " exit_code="
                <> str_int result.exit_code
                <> " output="
                <> host.repr result.output)
              ∷ []))
        actions

  module _ (ticket : Ticket) where
    -- The `while strike < _MAX_STRIKES` loop, on the attempts that are left.
    unfoldable pub attempts : ℕ → ℕ → List String → Option String → Exec W AgentState
    attempts zero strike log feedback = pure (record no_update {
      attempt_log = some log;
      ticket_status = some escalated;
      strike_count = some strike;
    })
    attempts (suc left) before log feedback = do
      let strike = before + 1
      summary ←
          run_agentic_loop host client (workspace_of ticket) ("Ticket: " <> host.repr_ticket ticket)
            feedback (id_of ticket)
      check ← run_fast_checks client (workspace_of ticket)
      let log' =
          log
          ++ (("strike=" <> str strike <> " summary=" <> host.repr summary)
              ∷ ("strike="
                  <> str strike
                  <> " fast_check exit_code="
                  <> str_int check.exit_code
                  <> " output="
                  <> host.repr check.output)
              ∷ [])
      when is_zero check.exit_code
          perform pure (record no_update {
            attempt_log = some log';
            ticket_status = some local_pass;
            strike_count = some strike;
            validation_diagnosis = some none;
          })
          otherwise attempts left strike log' (some check.output)

module _ {W : Type 0} (host : Host W) where
  unfoldable pub executor_node : AgentState → Exec W AgentState
  executor_node s = do
    client ← host.get_runtime_client
    let log = or_nil s.attempt_log
    let strike = or_zero s.strike_count
    when client.is_mock
        perform run_dummies host client log dummy_actions
        otherwise attempts host client (ticket_of s) (max_strikes - strike) strike log
            (Option.get_or s.validation_diagnosis none)
