-- ===== src/Nodes/Architect.antt =====
-- `_detect_verification_command`, `_architect_prompt` and `architect_node` of syndicate/nodes.py
pub mod Planned
use syndicate.Prelude.{
  String, ◌<>◌, Option, none, some, List, [], ◌∷◌, or_nil, or_text, or_else_text, truthy_text,
  if◌then◌else◌,
}
use syndicate.Exec.{
  Exec, Result, ok, raised, file_not_found, value_error, runtime_error, key_error, external, pure,
  raise, when◌perform◌otherwise◌, ◌>>=◌, trying,
}
use syndicate.State.{AgentState, GithubIssue, JsonObject, Ticket, empty_ticket}
use syndicate.State.Update.{no_update}
use syndicate.Runtime.Base.{RuntimeClient}
use syndicate.Host.{Host}
use syndicate.Nodes.Config.{architect_model, default_workspace_dir}
use syndicate.Nodes.Ask.{text_or, number_or, issue_key, call_llm_json}

-- The manifests in the order in which they are looked for, and the commands that they imply.
abbrev pub test_manifest_commands : List (String × String)
test_manifest_commands =
    ("pyproject.toml", "python3 -m pytest -q")
    ∷ ("pytest.ini", "python3 -m pytest -q")
    ∷ ("setup.cfg", "python3 -m pytest -q")
    ∷ ("package.json", "npm test")
    ∷ ("Cargo.toml", "cargo test")
    ∷ ("go.mod", "go test ./...")
    ∷ ("Gemfile", "bundle exec rspec")
    ∷ []

module _ {W : Type 0} where
  -- The `try` statement: a manifest that is not there leaves the rest of the loop.
  abbrev pub manifest_or : String → Exec W (Option String) → Result String → Exec W (Option String)
  manifest_or command rest (ok content) = pure (some command)
  manifest_or command rest (raised (file_not_found path)) = rest
  manifest_or command rest (raised (value_error e)) = raise (value_error e)
  manifest_or command rest (raised (runtime_error e)) = raise (runtime_error e)
  manifest_or command rest (raised (key_error e)) = raise (key_error e)
  manifest_or command rest (raised (external e)) = raise (external e)

module _ {W : Type 0} (client : RuntimeClient W) (workspace_dir : String) where
  unfoldable pub detect : List (String × String) → Exec W (Option String)
  detect [] = pure none
  detect ((filename, command) ∷ manifests) =
      trying (client.read_file (workspace_dir <> "/" <> filename))
        (manifest_or command (detect manifests))

  unfoldable pub detect_verification_command : Exec W (Option String)
  detect_verification_command = detect test_manifest_commands

module _ {W : Type 0} (host : Host W) where
  pub detection_note : Option String → String
  detection_note detected =
      if truthy_text detected
      then "Test tooling detected in the checkout: "
        <> host.repr (text_or detected "")
        <> ". Use this unless the issue clearly calls for a more specific command (e.g. one test file)."
      else "No recognized test manifest was found in the checkout root. You must still specify a verification_command based on the issue and repo."

  pub architect_prompt : GithubIssue → JsonObject → Option String → String
  unfolding detection_note
  architect_prompt issue analysis detected =
      "You are turning a triaged GitHub issue into a work ticket for an autonomous coding agent.\nRepo: "
      <> text_or issue.repo ""
      <> "\nIssue #"
      <> number_or issue.number ""
      <> ": "
      <> text_or issue.title ""
      <> "\n\n"
      <> text_or issue.body ""
      <> "\n\nAnalysis:\n"
      <> analysis.dumped
      <> "\n\n"
      <> detection_note detected
      <> "\n\nReply with a single JSON object, no prose, with keys:\n"
      <> "  \"title\": short imperative summary of the fix\n"
      <> "  \"intent\": one sentence describing the change, used in the commit message\n"
      <> "  \"files_changed\": repo-relative file paths this ticket will edit\n"
      <> "  \"verification_command\": shell command run in the workspace to confirm the fix\n"

  pub no_command : GithubIssue → String
  no_command issue =
      "architect could not derive a verification_command for "
      <> text_or issue.repo ""
      <> "#"
      <> number_or issue.number ""
      <> ": no recognized test manifest in the checkout and the model did not provide one. "
      <> "Refusing to fabricate a default -- fix the issue/repo input or extend _TEST_MANIFEST_COMMANDS."

  pub ticket_from : GithubIssue → JsonObject → String → String → Ticket
  ticket_from issue planned workspace_dir command = record empty_ticket {
    id = some (text_or issue.repo "issue" <> "#" <> number_or issue.number "0");
    title = some (or_text (or_else_text planned.title issue.title) "untitled");
    intent = some (or_text (or_else_text planned.intent planned.title) "update");
    files_changed = some (or_nil planned.files_changed);
    workspace_dir = some workspace_dir;
    verification_command = some command;
  }

  unfoldable pub plan : GithubIssue → JsonObject → Exec W AgentState
  unfolding architect_prompt no_command ticket_from
  plan issue analysis = do
    let workspace_dir = or_text issue.workspace_dir default_workspace_dir
    client ← host.get_runtime_client
    detected ← detect_verification_command client workspace_dir
    planned ←
        call_llm_json host (issue_key issue "architect") architect_model
          (architect_prompt issue analysis detected) 1024
    let command = or_else_text planned.verification_command detected
    when truthy_text command
        perform pure (record no_update {
          active_ticket = some (ticket_from issue planned workspace_dir (text_or command ""));
        })
        otherwise raise (value_error (no_command issue))

  unfoldable pub when_both : Option GithubIssue → Option JsonObject → Exec W AgentState
  when_both none analysis = pure no_update
  when_both (some issue) none = pure no_update
  when_both (some issue) (some analysis) = plan issue analysis

  unfoldable pub architect_node : AgentState → Exec W AgentState
  architect_node s = when_both s.issue s.issue_analysis
