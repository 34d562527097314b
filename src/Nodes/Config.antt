-- ===== src/Nodes/Config.antt =====
-- The constants of syndicate/nodes.py.
use syndicate.Prelude.{ℕ, String, List, [], ◌∷◌}

abbrev pub dummy_actions : List String
dummy_actions = "git status" ∷ "python -m pytest" ∷ []

abbrev pub analyzer_model : String
analyzer_model = "claude-sonnet-4-6"

abbrev pub architect_model : String
architect_model = "claude-sonnet-4-6"

abbrev pub executor_model : String
executor_model = "claude-sonnet-4-6"

abbrev pub executor_tools : List (String × String)
executor_tools =
    ("bash_20250124", "bash") ∷ ("text_editor_20250728", "str_replace_based_edit_tool") ∷ []

abbrev pub max_tool_calls : ℕ
max_tool_calls = 25

abbrev pub max_strikes : ℕ
max_strikes = 3

abbrev pub fast_check_actions : List String
fast_check_actions = "git status" ∷ "python -m pytest" ∷ []

abbrev pub default_verification_command : String
default_verification_command = "python3 -m pytest -q"

-- 300 seconds, in milliseconds
abbrev pub validator_timeout : ℕ
validator_timeout = 300000

abbrev pub default_workspace_dir : String
default_workspace_dir = "/home/openhands/syndicate-workspace"

abbrev pub diagnosis_max_lines : ℕ
diagnosis_max_lines = 60

abbrev pub diagnosis_max_bytes : ℕ
diagnosis_max_bytes = 4096

abbrev pub git_bot_name : String
git_bot_name = "syndicate-bot"

abbrev pub git_bot_email : String
git_bot_email = "syndicate-bot@example.invalid"
