-- ===== src/Tests/Step.antt =====
-- The script about validation and commits over a sandbox whose test fails while its file is broken.
use syndicate.Prelude.{
  ◌≡◌, refl, String, Bool, false, not, none, [], ◌∷◌, pos, str_eq, if◌then◌else◌, str_int, is_space,
  strip, join, str,
}
use syndicate.Exec.{ok, pure, ◌>>=◌, trying, raise, when◌perform◌otherwise◌}
use syndicate.Exec.Yields.{Returned}
use syndicate.Runtime.Base.{ActionResult, RuntimeClient}
use syndicate.Host.{Host, malformed, repr_list, repr_option}
use syndicate.Llm.{LlmClient}
use syndicate.Scripts.ValidationGit.{
  verify_step6, scenarios, seed_workspace, scenario_a, scenario_b, scenario_c, violations,
  violations_in,
}
use syndicate.Scripts.ValidationGit.Passed.{IsVerified, verify_step6-IsVerified}
use syndicate.Scripts.FileOps.{finally}
use syndicate.Scripts.Checks.{require}
use syndicate.Nodes.Validator.{validator_node}
use syndicate.Graph.{validator_router}
use syndicate.Nodes.Oversight.{
  oversight_git_node, identify, commit_files, head, paths_of, message_of, run, strike,
}
use syndicate.Nodes.Shell.{quote, all_safe, escape, is_safe}
use syndicate.Nodes.Ledger.{join_or}
use syndicate.Nodes.Diagnosis.{byte_length, drop_bytes, replacements, truncate_diagnosis}
use syndicate.Server.Attempts.{contains}

-- Whether the file is broken.
abbrev answer_to : String → Bool → ActionResult
answer_to action broken =
    if str_eq action "python3 -m pytest -q"
    then record { exit_code = if broken then pos 1 else pos 0; output = "2 tests" }
    else if str_eq action "git log --oneline"
    then record { exit_code = pos 0; output = "1a2b3c STEP6-SAMPLE" }
    else record { exit_code = pos 0; output = "" }

abbrev tester : RuntimeClient Bool
tester = record {
  is_mock = false;
  run_action = λ action cwd timeout broken. (ok (answer_to action broken), broken);
  read_file = λ path. pure "";
  write_file = λ path content. pure tt;
  edit_file = λ path old new broken. (ok tt, not broken);
}

abbrev silent_model : LlmClient Bool
silent_model = record {
  create = λ request. pure (record { content = []; stop_reason = "end_turn" });
}

abbrev tested : Host Bool
tested = record {
  environ = λ key. none;
  get_runtime_client = pure tester;
  get_stub_client = λ id. pure silent_model;
  anthropic = pure silent_model;
  max_escalations = pos 3;
  repr = λ s. s;
  repr_ticket = λ t. "{}";
  loads = λ reply. malformed;
}

verify_step6-tested :
    verify_step6 tested "/work" (λ pattern text. 0) ("import re\n" ∷ []) (pure tt) false
    ≡ (ok tt, false)
unfolding ◌>>=◌ trying pure raise when◌perform◌otherwise◌ finally verify_step6 scenarios
    seed_workspace scenario_a scenario_b scenario_c violations violations_in require validator_node
    validator_router oversight_git_node identify commit_files head paths_of message_of run strike
    quote all_safe escape is_safe join_or repr_list repr_option byte_length drop_bytes replacements
    truncate_diagnosis str_int is_space strip join str contains
verify_step6-tested = refl

verify_step6-IsVerified_example :
    Returned
      (λ done. IsVerified tested "/work" (λ pattern text. 0) ("import re\n" ∷ []) false)
      (verify_step6 tested "/work" (λ pattern text. 0) ("import re\n" ∷ []) (pure tt) false).0
verify_step6-IsVerified_example =
    verify_step6-IsVerified tested "/work" (λ pattern text. 0) ("import re\n" ∷ []) (pure tt) false
