-- ===== src/Nodes/Oversight/Commands.antt =====
-- The commands that `oversight_git_node` of syndicate/nodes.py writes, as a shell reads them.
use syndicate.Prelude.{String, ◌<>◌, ◌≡◌, refl, some, List, [], ◌∷◌, join, map}
use syndicate.State.{Ticket}
use syndicate.Nodes.Config.{git_bot_name, git_bot_email}
use syndicate.Nodes.Shell.{quote}
use syndicate.Nodes.Shell.Words.{words}
use syndicate.Nodes.Shell.Joined.{words-command, words_from-last, words_from-join}
use syndicate.Nodes.Oversight.{paths_of, message_of}

-- Whatever the paths and the message hold, a shell reads the commands that stage, commit and identify
-- as exactly the words that are meant: each path, the message, the name and the address is one
-- argument, character for character.
pub words-commands :
    (files : List String) (ticket : Ticket) (attempt_log : List String)
    → (words ("git add -- " <> paths_of files) ≡ some ("git" ∷ "add" ∷ "--" ∷ files))
      × (words ("git commit -m " <> quote (message_of ticket attempt_log))
          ≡ some ("git" ∷ "commit" ∷ "-m" ∷ message_of ticket attempt_log ∷ []))
      × (words ("git config user.name " <> quote git_bot_name)
          ≡ some ("git" ∷ "config" ∷ "user.name" ∷ git_bot_name ∷ []))
      × (words ("git config user.email " <> quote git_bot_email)
          ≡ some ("git" ∷ "config" ∷ "user.email" ∷ git_bot_email ∷ []))
unfolding paths_of
words-commands files ticket attempt_log =
    let message = message_of ticket attempt_log in
    let git : quote "git" ≡ "git" = unfold quote in refl in
    let config : quote "config" ≡ "config" = unfold quote in refl in
    (
      words-command "git" "add" "--" (join " " (map quote files)) files git (unfold quote in refl)
          (unfold quote in refl) (words_from-join files),
      words-command "git" "commit" "-m" (quote message) (message ∷ []) git (unfold quote in refl)
          (unfold quote in refl) (words_from-last message),
      words-command "git" "config" "user.name" (quote git_bot_name) (git_bot_name ∷ []) git config
          (unfold quote in refl) (words_from-last git_bot_name),
      words-command "git" "config" "user.email" (quote git_bot_email) (git_bot_email ∷ []) git
          config (unfold quote in refl) (words_from-last git_bot_email),
    )
