-- ===== src/Graph/Writes.antt =====
-- Which keys each node of the graph writes, and with what values.
use syndicate.Prelude.{◌≡◌, refl, none, some, Option, or_zero}
use syndicate.Exec.Yields.{Yields, yields_rules, Yields-pure}
use syndicate.State.{AgentState, GithubIssue, JsonObject}
use syndicate.State.Update.{no_update}
use syndicate.Host.{Host}
use syndicate.Nodes.Executor.{ticket_of}
use syndicate.Nodes.Analyzer.{analyze, analyzer_node}
use syndicate.Nodes.Architect.{plan, when_both, architect_node}
use syndicate.Nodes.Oversight.{files_of}
use syndicate.Nodes.Ledger.{escalate_node, advance_node}
use syndicate.Nodes.Writes.{
  ExecutorWrites, ValidatorWrites, OversightWrites, executor-Writes, validator-Writes,
  oversight-Writes,
}
use syndicate.Graph.{
  Node, analyzer, architect, dispatch, executor, validator, oversight_git, escalate, advance,
  node_of,
}
use native.Mathlib.Omega.{arith}

-- The analyzer and the architect write the ticket and what leads to it, and no more.
pub record PlannerWrites (u : AgentState) : Type 0 where
  pub issue : u.issue ≡ none
  pub attempt_log : u.attempt_log ≡ none
  pub decision_ledger : u.decision_ledger ≡ none
  pub ticket_status : u.ticket_status ≡ none
  pub last_validation_passed : u.last_validation_passed ≡ none
  pub strike_count : u.strike_count ≡ none
  pub escalation_count : u.escalation_count ≡ none
  pub run_status : u.run_status ≡ none

module _ {W : Type 0} (host : Host W) where
  analyze-Writes :
      (issue : Option GithubIssue) (s : AgentState) → Yields PlannerWrites (analyze host issue s)
  unfolding analyze
  analyze-Writes none s = Yields-pure _ (ground arith)
  analyze-Writes (some issue) s = search (yields_rules, arith)

  plan-Writes :
      (issue : GithubIssue) (analysis : JsonObject)
      → Yields PlannerWrites (plan host issue analysis)
  unfolding plan
  plan-Writes issue analysis = search (yields_rules, arith) depth 8

  abbrev pub NodeWrites : Node → AgentState → AgentState → Type 0
  NodeWrites analyzer s u = PlannerWrites u
  NodeWrites architect s u = PlannerWrites u
  NodeWrites dispatch s u = u ≡ no_update
  NodeWrites executor s u = ExecutorWrites (or_zero s.strike_count) u
  NodeWrites validator s u = ValidatorWrites (or_zero s.strike_count) u
  NodeWrites oversight_git s u = OversightWrites (files_of (ticket_of s)) (or_zero s.strike_count) u
  NodeWrites escalate s u = u ≡ escalate_node host.max_escalations s
  NodeWrites advance s u = u ≡ advance_node s

  architect-Writes :
      (issue : Option GithubIssue) (analysis : Option JsonObject)
      → Yields PlannerWrites (when_both host issue analysis)
  unfolding when_both
  architect-Writes none analysis = Yields-pure _ (ground arith)
  architect-Writes (some issue) none = Yields-pure _ (ground arith)
  architect-Writes (some issue) (some analysis) = plan-Writes issue analysis

  pub node-Writes : (n : Node) (s : AgentState) → Yields (NodeWrites n s) (node_of host n s)
  unfolding node_of analyzer_node architect_node
  node-Writes analyzer s = analyze-Writes s.issue s
  node-Writes architect s = architect-Writes s.issue s.issue_analysis
  node-Writes dispatch s = Yields-pure _ refl
  node-Writes executor s = executor-Writes host s
  node-Writes validator s = validator-Writes host s
  node-Writes oversight_git s = oversight-Writes host s
  node-Writes escalate s = Yields-pure _ refl
  node-Writes advance s = Yields-pure _ refl
