-- ===== src/Scripts/ExecutorLoop.antt =====
-- scripts/verify_executor_loop_stub.py. The environment is that of the script, in which the stand-in
-- for the model is on and the mock of the sandbox is off; `elapsed_ok` is what the clock says of the
-- bound on the time that the executor takes.
pub mod Scenarios
pub mod Dialogue
pub mod Context
use syndicate.Prelude.{
  ℕ, String, ◌<>◌, Bool, not, Option, none, some, List, [], ◌∷◌, is_zero, is_empty, strip, str_eq,
  if◌then◌else◌,
}
use syndicate.Prelude.Strip.{strip}
use syndicate.Exec.{Exec, pure, ◌>>=◌, ◌>>◌}
use syndicate.State.{Ticket, empty_ticket}
use syndicate.Runtime.Base.{ActionResult, RuntimeClient}
use syndicate.Llm.{ToolInput}
use syndicate.StubLlm.{StubToolCall, StubTurn, tool_turn, complete_turn}
use syndicate.Scripts.Checks.{require}

abbrev pub calc_buggy : String
calc_buggy = "def add(a, b):\n    return a - b\n"

abbrev pub test_calc_py : String
test_calc_py = "from calc import add\n\n\ndef test_add():\n    assert add(2, 3) == 5\n"

abbrev pub setup_command : String
setup_command =
    "git init -q && git config user.name syndicate-bot && git config user.email syndicate-bot@example.invalid && git add -- calc.py tests/test_calc.py .gitignore && (git commit -q -m seed || true)"

-- Texts of a client's replies that are not blank.
abbrev pub has_text : ActionResult → Bool
has_text log = not (str_eq (strip log.output) "")

unfoldable pub seed_calc_project : {W : Type 0} → RuntimeClient W → String → Exec W (Unit {0})
seed_calc_project client workspace_dir = do
  setup ← client.run_action ("mkdir -p " <> workspace_dir <> "/tests") none none
  require (is_zero setup.exit_code)
  client.write_file (workspace_dir <> "/calc.py") calc_buggy
  client.write_file (workspace_dir <> "/tests/test_calc.py") test_calc_py
  client.write_file (workspace_dir <> "/.gitignore") "__pycache__/\n*.pyc\n.pytest_cache/\n"
  init ← client.run_action setup_command (some workspace_dir) none
  require (is_zero init.exit_code)
  log ← client.run_action "git log --oneline" (some workspace_dir) none
  require (is_zero log.exit_code)
  require (has_text log)

unfoldable pub make_ticket : String → String → Ticket
make_ticket ticket_id workspace_dir = record empty_ticket {
  id = some ticket_id;
  intent = some ("step7.5 stub-llm scenario " <> ticket_id);
  verification_command = some "python3 -m pytest -q";
  workspace_dir = some workspace_dir;
  files_changed = some ("calc.py" ∷ []);
}

-- The tool calls of the scripts.
abbrev pub no_input : ToolInput
no_input = record {
  restart = none;
  command = none;
  path = none;
  file_text = none;
  old_str = none;
  new_str = none;
}

abbrev pub bash_call : String → StubToolCall
bash_call command = record { name = "bash"; input = record no_input { command = some command } }

abbrev pub view_call : String → StubToolCall
view_call path = record {
  name = "str_replace_based_edit_tool";
  input = record no_input { command = some "view"; path = some path };
}

abbrev pub str_replace_call : String → String → String → StubToolCall
str_replace_call path old_str new_str = record {
  name = "str_replace_based_edit_tool";
  input = record no_input {
    command = some "str_replace";
    path = some path;
    old_str = some old_str;
    new_str = some new_str;
  };
}

abbrev pub create_call : String → String → StubToolCall
create_call path file_text = record {
  name = "str_replace_based_edit_tool";
  input = record no_input { command = some "create"; path = some path; file_text = some file_text };
}

abbrev pub single_turn : StubToolCall → StubTurn
single_turn call = tool_turn (call ∷ [])
