-- ===== src/Tests/Texts.antt =====
-- The theorems about diagnoses and commands.
use syndicate.Prelude.{◌+◌, ◌≤◌, ◌≡◌, ◌<>◌, String, some, List, [], ◌∷◌}
use syndicate.Nodes.Config.{diagnosis_max_bytes, git_bot_name, git_bot_email}
use syndicate.State.{empty_ticket}
use syndicate.Nodes.Shell.{quote}
use syndicate.Nodes.Shell.Words.{words}
use syndicate.Nodes.Oversight.{paths_of, message_of}
use syndicate.Nodes.Oversight.Commands.{words-commands}
use syndicate.Nodes.Diagnosis.{byte_length, truncate_diagnosis}
use syndicate.Nodes.Diagnosis.Size.{byte_length-truncate_diagnosis}

byte_length-truncate_diagnosis_example :
    byte_length (truncate_diagnosis "E assert 1 == 2\nFAILED\n") ≤ diagnosis_max_bytes + 6
byte_length-truncate_diagnosis_example = byte_length-truncate_diagnosis "E assert 1 == 2\nFAILED\n"

abbrev paths : List String
paths = "src/a b.py" ∷ "it's; rm -rf *" ∷ []

words-commands_example :
    (words ("git add -- " <> paths_of paths) ≡ some ("git" ∷ "add" ∷ "--" ∷ paths))
    × (words ("git commit -m " <> quote (message_of empty_ticket []))
        ≡ some ("git" ∷ "commit" ∷ "-m" ∷ message_of empty_ticket [] ∷ []))
    × (words ("git config user.name " <> quote git_bot_name)
        ≡ some ("git" ∷ "config" ∷ "user.name" ∷ git_bot_name ∷ []))
    × (words ("git config user.email " <> quote git_bot_email)
        ≡ some ("git" ∷ "config" ∷ "user.email" ∷ git_bot_email ∷ []))
words-commands_example = words-commands paths empty_ticket []
