-- ===== src/Scripts/ValidationGit.antt =====
-- scripts/verify_step6_validation_git.py. The host is what the modules of the program see of an
-- environment without `SYNDICATE_MOCK_CLIENT`; `finditer` counts the matches of a pattern in a text,
-- `sources` are the texts of the files under syndicate/, and `aclose` closes the client.
pub mod Passed
use syndicate.Prelude.{
  ℕ, ◌+◌, String, ◌<>◌, Bool, true, false, not, Option, none, some, List, [], ◌∷◌, length, is_zero,
  str_eq, ◌==◌, or_text,
}
use syndicate.Prelude.Strip.{strip}
use syndicate.Exec.{Exec, pure, ◌>>=◌, ◌>>◌}
use syndicate.State.{AgentState, Ticket, empty_ticket}
use syndicate.State.Update.{no_update, overlay}
use syndicate.Runtime.Base.{RuntimeClient}
use syndicate.Host.{Host}
use syndicate.Graph.{Target, to, executor, validator_router}
use syndicate.Nodes.Diagnosis.{splitlines}
use syndicate.Nodes.Validator.{validator_node}
use syndicate.Nodes.Oversight.{oversight_git_node}
use syndicate.Server.Attempts.{contains}
use syndicate.Scripts.Checks.{require}
use syndicate.Scripts.ExecutorLoop.Scenarios.{is_oversight}
use syndicate.Scripts.FileOps.{finally}

abbrev pub calc_py : String
calc_py = "def add(a, b):\n    return a + b\n"

abbrev pub step6_test_calc_py : String
step6_test_calc_py =
    "from calc import add\n\n\ndef test_add_positive():\n    assert add(2, 3) == 5\n\n\ndef test_add_negative():\n    assert add(-1, -1) == -2\n"

abbrev pub seed_command : String
seed_command =
    "git init -q && git config user.name syndicate-bot && git config user.email syndicate-bot@example.invalid && python3 -m pip install --quiet pytest && git add -- tests/test_calc.py .gitignore && git commit -q -m seed"

abbrev pub sample_ticket : String → Ticket
sample_ticket workspace_dir = record empty_ticket {
  id = some "STEP6-SAMPLE";
  intent = some "step6 verification harness run";
  verification_command = some "python3 -m pytest -q";
  workspace_dir = some workspace_dir;
  files_changed = some ("calc.py" ∷ []);
}

-- The states that the two scenarios start from.
abbrev pub passing : String → AgentState
passing workspace_dir = record no_update {
  active_ticket = some (sample_ticket workspace_dir);
  attempt_log = some ("strike=1 fast_check exit_code=0 output='fast checks passed'" ∷ []);
}

abbrev pub failing : String → AgentState
failing workspace_dir = record no_update {
  active_ticket = some (sample_ticket workspace_dir);
  strike_count = some 0;
}

-- `value is True` and `value is False`
abbrev pub is_true : Option Bool → Bool
is_true none = false
is_true (some b) = b

abbrev pub is_false : Option Bool → Bool
is_false none = false
is_false (some b) = not b

-- `state.get('validation_diagnosis') or ''`
abbrev pub diagnosis_of : Option (Option String) → String
diagnosis_of none = ""
diagnosis_of (some diagnosis) = or_text diagnosis ""

-- `route == 'executor'`
abbrev pub is_executor : Target → Bool
is_executor (to executor) = true
is_executor _ = false

-- `len(log.output.strip().splitlines())`
abbrev pub count_commits : String → ℕ
count_commits output = length (splitlines (strip output))

abbrev pub forbidden_patterns : List String
forbidden_patterns = "git add \\." ∷ "add -A" ∷ "--force" ∷ "push" ∷ "config --global" ∷ []

-- `len(violations)`
unfoldable pub violations_in : (String → String → ℕ) → String → List String → ℕ
violations_in finditer text [] = 0
violations_in finditer text (pattern ∷ patterns) =
    finditer pattern text + violations_in finditer text patterns

unfoldable pub violations : (String → String → ℕ) → List String → ℕ
unfolding violations_in
violations finditer [] = 0
violations finditer (text ∷ texts) =
    violations_in finditer text forbidden_patterns + violations finditer texts

module _ {W : Type 0} (host : Host W) (workspace_dir : String) where
  unfoldable pub seed_workspace : RuntimeClient W → Exec W (Unit {0})
  seed_workspace client = do
    setup ← client.run_action ("mkdir -p " <> workspace_dir <> "/tests") none none
    require (is_zero setup.exit_code)
    client.write_file (workspace_dir <> "/tests/test_calc.py") step6_test_calc_py
    client.write_file (workspace_dir <> "/.gitignore") "__pycache__/\n*.pyc\n.pytest_cache/\n"
    init ← client.run_action seed_command (some workspace_dir) none
    require (is_zero init.exit_code)
    client.write_file (workspace_dir <> "/calc.py") calc_py

  unfoldable pub scenario_a : RuntimeClient W → Exec W (Unit {0})
  scenario_a client = do
    validator_result ← validator_node host (passing workspace_dir)
    let s = overlay (passing workspace_dir) validator_result
    require (is_true s.last_validation_passed)
    require (is_oversight (validator_router s))
    git_result ← oversight_git_node host s
    log ← client.run_action "git log --oneline" (some workspace_dir) none
    require (contains "STEP6-SAMPLE" log.output)
    status ← client.run_action "git status --porcelain" (some workspace_dir) none
    require (str_eq (strip status.output) "")

  unfoldable pub scenario_b : RuntimeClient W → Exec W (Unit {0})
  scenario_b client = do
    client.edit_file (workspace_dir <> "/calc.py") "return a + b" "return a - b"
    before ← client.run_action "git log --oneline" (some workspace_dir) none
    validator_result ← validator_node host (failing workspace_dir)
    let s = overlay (failing workspace_dir) validator_result
    require (is_false s.last_validation_passed)
    require (not (str_eq (diagnosis_of s.validation_diagnosis) ""))
    require (is_executor (validator_router s))
    after ← client.run_action "git log --oneline" (some workspace_dir) none
    require (count_commits after.output == count_commits before.output)
    client.edit_file (workspace_dir <> "/calc.py") "return a - b" "return a + b"

  unfoldable pub scenario_c : (String → String → ℕ) → List String → Exec W (Unit {0})
  unfolding violations
  scenario_c finditer sources = require (violations finditer sources == 0)

  unfoldable pub scenarios :
      (String → String → ℕ) → List String → RuntimeClient W → Exec W (Unit {0})
  scenarios finditer sources client = do
    seed_workspace client
    scenario_a client
    scenario_b client
    scenario_c finditer sources

  unfoldable pub verify_step6 :
      (String → String → ℕ) → List String → Exec W (Unit {0}) → Exec W (Unit {0})
  verify_step6 finditer sources aclose = do
    client ← host.get_runtime_client
    finally (scenarios finditer sources client) aclose
