-- ===== src/Nodes/Oversight.antt =====
-- `oversight_git_node` of syndicate/nodes.py. The list `git_log`, to which the inner functions
-- append, is passed along.
pub mod Done
pub mod Commands
use syndicate.Prelude.{
  ◌+◌, String, ◌<>◌, Bool, true, false, not, Option, none, some, List, [], ◌∷◌, ◌++◌, map, str_eq,
  join, strip, str_int, is_zero, is_empty, or_nil, or_zero, or_text, or_else_text, if◌then◌else◌,
}
use syndicate.Exec.{Exec, pure, when◌perform◌otherwise◌, ◌>>=◌}
use syndicate.State.{AgentState, Ticket, done}
use syndicate.State.Update.{no_update}
use syndicate.Runtime.Base.{ActionResult, RuntimeClient}
use syndicate.Host.{Host, repr_option, repr_list}
use syndicate.Nodes.Config.{git_bot_name, git_bot_email}
use syndicate.Nodes.Shell.{quote}
use syndicate.Nodes.Executor.{ticket_of, workspace_of, id_of}
use syndicate.Nodes.Ledger.{join_or}

-- `ticket.get('files_changed') or ticket.get('target_files') or []`
abbrev pub files_of : Ticket → List String
files_of ticket =
    if is_empty (or_nil ticket.files_changed)
    then or_nil ticket.target_files
    else or_nil ticket.files_changed

-- `head_after is None or head_after == head_before`
abbrev pub is_unmoved : Option String → Option String → Bool
is_unmoved before none = true
is_unmoved none (some after) = false
is_unmoved (some before) (some after) = str_eq after before

-- `' '.join(shlex.quote(f) for f in files)`
unfoldable pub paths_of : List String → String
paths_of files = join " " (map quote files)

-- The commit message: the ticket, its intent and the attempts.
unfoldable pub message_of : Ticket → List String → String
message_of ticket attempt_log =
    "["
    <> or_text (id_of ticket) "TICKET"
    <> "] "
    <> or_text (or_else_text ticket.intent ticket.title) "update"
    <> "\n\n"
    <> join_or "no attempts" attempt_log

module _ {W : Type 0} (client : RuntimeClient W) (cwd : String) where
  -- `run`
  unfoldable pub run : String → List String → Exec W (ActionResult × List String)
  run command git_log = do
    result ← client.run_action command (some cwd) none
    pure (
      result,
      git_log
          ++ (("$ " <> command <> "\nexit=" <> str_int result.exit_code <> "\n" <> result.output)
              ∷ []),
    )

  -- A repository is there, and its identity is set.
  unfoldable pub identify : Exec W (List String)
  unfolding run
  identify = do
    (is_repo, log₁) ← run "git rev-parse --is-inside-work-tree" []
    log₂ ←
        when is_zero is_repo.exit_code
        perform pure log₁
        otherwise (do (result, log) ← run "git init" log₁; pure log)
    (name, log₃) ← run ("git config user.name " <> quote git_bot_name) log₂
    (email, log₄) ← run ("git config user.email " <> quote git_bot_email) log₃
    pure log₄

  -- The name of `HEAD`, if it resolves.
  unfoldable pub head : List String → Exec W (Option String × List String)
  unfolding run
  head git_log = do
    (result, log) ← run "git rev-parse HEAD" git_log
    pure (if is_zero result.exit_code then some (strip result.output) else none, log)

-- `strike`: the attempt failed for a reason.
unfoldable pub strike : AgentState → List String → String → AgentState
strike s git_log reason = record no_update {
  attempt_log = some (or_nil s.attempt_log ++ (git_log ++ (("oversight_git: " <> reason) ∷ [])));
  strike_count = some (or_zero s.strike_count + 1);
}

module _ {W : Type 0} (host : Host W) where
  -- The part of the node behind the early return: stage, commit, and compare `HEAD`.
  unfoldable pub commit_files : RuntimeClient W → AgentState → List String → Exec W AgentState
  unfolding repr_list repr_option
  commit_files client s log₁ = do
    let ticket = ticket_of s
    let cwd = workspace_of ticket
    let files = files_of ticket
    (head_before, log₂) ← head client cwd log₁
    (added, log₃) ← run client cwd ("git add -- " <> paths_of files) log₂
    when not (is_zero added.exit_code)
        perform pure (strike s log₃ "git add failed; nothing staged, no commit attempted")
        otherwise (do
          (committed, log₄) ←
              run client cwd ("git commit -m " <> quote (message_of ticket (or_nil s.attempt_log)))
                log₃
          when not (is_zero committed.exit_code)
              perform pure (
                  strike s log₄ (
                    "git commit failed (exit="
                    <> str_int committed.exit_code
                    <> "); declared files_changed="
                    <> repr_list host files
                    <> " produced no commit"))
              otherwise (do
                (head_after, log₅) ← head client cwd log₄
                when is_unmoved head_before head_after
                    perform pure (
                        strike s log₅ (
                          "git commit exited 0 but HEAD did not move (before="
                          <> repr_option host head_before
                          <> ", after="
                          <> repr_option host head_after
                          <> "); declared files_changed="
                          <> repr_list host files
                          <> " showed no changes"))
                    otherwise pure (record no_update {
                      attempt_log = some (or_nil s.attempt_log ++ log₅);
                      ticket_status = some done;
                    })))

  unfoldable pub oversight_git_node : AgentState → Exec W AgentState
  oversight_git_node s = do
    client ← host.get_runtime_client
    log ← identify client (workspace_of (ticket_of s))
    when is_empty (files_of (ticket_of s))
        perform pure (record no_update { attempt_log = some (or_nil s.attempt_log ++ log) })
        otherwise commit_files client s log
