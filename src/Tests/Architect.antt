-- ===== src/Tests/Architect.antt =====
-- The plan for an issue, in a checkout with every manifest and a model that names no command.
use syndicate.Prelude.{some, none, [], ◌∷◌}
use syndicate.State.{AgentState, GithubIssue, JsonObject}
use syndicate.State.Update.{no_update}
use syndicate.Host.{Host, object}
use syndicate.Nodes.Architect.{architect_node}
use syndicate.Nodes.Architect.Planned.{IsPlanned, architect_node-IsPlanned}
use syndicate.Tests.World.{World, demo, empty_world}

abbrev plan_reply : JsonObject
plan_reply = record {
  title = some "Fix the parser";
  intent = none;
  files_changed = some ("parser.py" ∷ []);
  verification_command = none;
  dumped = "{}";
}

abbrev planning : Host World
planning = record demo { loads = λ reply. object plan_reply }

abbrev an_issue : GithubIssue
an_issue = record {
  repo = some "o/r";
  number = some 7;
  title = some "The parser fails";
  body = none;
  workspace_dir = some "/work";
}

abbrev triaged : AgentState
triaged = record no_update { issue = some an_issue; issue_analysis = some plan_reply }

architect_node-IsPlanned_example :
    IsPlanned planning
      (some an_issue)
      (some plan_reply)
      empty_world
      (architect_node planning triaged empty_world).0
      (architect_node planning triaged empty_world).1
architect_node-IsPlanned_example = architect_node-IsPlanned planning triaged empty_world
