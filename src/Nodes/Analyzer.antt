-- ===== src/Nodes/Analyzer.antt =====
-- `_analyzer_prompt` and `analyzer_node` of syndicate/nodes.py
use syndicate.Prelude.{String, ◌<>◌, Bool, ◌&&◌, Option, none, some, is_none, if◌then◌else◌}
use syndicate.Exec.{Exec, pure, ◌>>=◌}
use syndicate.State.{AgentState, GithubIssue, Ticket, empty_ticket}
use syndicate.State.Update.{no_update}
use syndicate.Host.{Host}
use syndicate.Nodes.Config.{analyzer_model}
use syndicate.Nodes.Ask.{text_or, number_or, issue_key, call_llm_json}

pub analyzer_prompt : GithubIssue → String
analyzer_prompt issue =
    "You are triaging a GitHub issue for automated resolution.\nRepo: "
    <> text_or issue.repo ""
    <> "\nIssue #"
    <> number_or issue.number ""
    <> ": "
    <> text_or issue.title ""
    <> "\n\n"
    <> text_or issue.body ""
    <> "\n\nReply with a single JSON object, no prose, with keys:\n"
    <> "  \"problem_summary\": one sentence stating the bug or request\n"
    <> "  \"root_cause_hypothesis\": your best guess at the underlying cause\n"
    <> "  \"suspected_files\": repo-relative file paths likely needing changes\n"

abbrev pub stub_ticket : Ticket
stub_ticket = record empty_ticket { id = some "TICKET-1"; title = some "stub ticket" }

-- `not ticket`: none of the keys is there.
abbrev is_blank : Ticket → Bool
is_blank t =
    is_none t.id
    && is_none t.ticket_id
    && is_none t.title
    && is_none t.raw_request
    && is_none t.intent
    && is_none t.files_changed
    && is_none t.target_files
    && is_none t.workspace_dir
    && is_none t.verification_command

-- `state.get('active_ticket') or {...}`
pub given_ticket : Option Ticket → Ticket
given_ticket none = stub_ticket
given_ticket (some ticket) = if is_blank ticket then stub_ticket else ticket

module _ {W : Type 0} (host : Host W) where
  unfoldable pub analyze : Option GithubIssue → AgentState → Exec W AgentState
  unfolding given_ticket analyzer_prompt
  analyze none s = pure (record no_update { active_ticket = some (given_ticket s.active_ticket) })
  analyze (some issue) s = do
    analysis ←
        call_llm_json host (issue_key issue "analyzer") analyzer_model (analyzer_prompt issue) 1024
    pure (record no_update { issue_analysis = some analysis })

  unfoldable pub analyzer_node : AgentState → Exec W AgentState
  unfolding analyze
  analyzer_node s = analyze s.issue s
