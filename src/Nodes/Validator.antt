-- ===== src/Nodes/Validator.antt =====
-- `validator_node` of syndicate/nodes.py
use syndicate.Prelude.{◌+◌, some, none, true, false, is_zero, or_text, or_zero}
use syndicate.Exec.{Exec, pure, when◌perform◌otherwise◌, ◌>>=◌}
use syndicate.State.{AgentState}
use syndicate.State.Update.{no_update}
use syndicate.Host.{Host}
use syndicate.Nodes.Config.{default_verification_command, validator_timeout}
use syndicate.Nodes.Diagnosis.{truncate_diagnosis}
use syndicate.Nodes.Executor.{ticket_of, workspace_of}

module _ {W : Type 0} (host : Host W) where
  unfoldable pub validator_node : AgentState → Exec W AgentState
  validator_node s = do
    client ← host.get_runtime_client
    when client.is_mock
        perform pure (record no_update { last_validation_passed = some true })
        otherwise (do
          let ticket = ticket_of s
          let command = or_text ticket.verification_command default_verification_command
          result ← client.run_action command (some (workspace_of ticket)) (some validator_timeout)
          when is_zero result.exit_code
              perform pure (record no_update {
                last_validation_passed = some true;
                validation_diagnosis = some none;
              })
              otherwise pure (record no_update {
                last_validation_passed = some false;
                validation_diagnosis = some (some (truncate_diagnosis result.output));
                strike_count = some (or_zero s.strike_count + 1);
              }))
