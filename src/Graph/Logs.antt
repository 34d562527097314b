-- ===== src/Graph/Logs.antt =====
-- How many lines each node of the graph adds to the log of attempts.
use syndicate.Prelude.{◌≡◌, none, arith}
use syndicate.Exec.Yields.{Yields, Yields-weaken}
use syndicate.State.{AgentState}
use syndicate.Host.{Host}
use syndicate.Nodes.Ledger.{escalate_node, advance_node}
use syndicate.Nodes.Logs.{Adds, executor-Adds, oversight-Adds}
use syndicate.Graph.{
  Node, analyzer, architect, dispatch, executor, validator, oversight_git, escalate, advance,
  node_of,
}
use syndicate.Graph.Writes.{node-Writes}

module _ {W : Type 0} (host : Host W) where
  -- A node that does not write the log.
  silent-Adds : (s u : AgentState) → u.attempt_log ≡ none → Adds 9 s u
  silent-Adds s u h = rw h (omega arith)

  escalate-Adds : (s : AgentState) → Adds 9 s (escalate_node host.max_escalations s)
  unfolding escalate_node
  escalate-Adds s = ground arith

  advance-Adds : (s : AgentState) → Adds 9 s (advance_node s)
  unfolding advance_node
  advance-Adds s = omega arith

  pub node-Adds : (n : Node) (s : AgentState) → Yields (Adds 9 s) (node_of host n s)
  node-Adds analyzer s =
      Yields-weaken _ (λ u h. silent-Adds s u h.attempt_log) (node-Writes host analyzer s)
  node-Adds architect s =
      Yields-weaken _ (λ u h. silent-Adds s u h.attempt_log) (node-Writes host architect s)
  node-Adds dispatch s = Yields-weaken _ (λ u h. rw h (omega arith)) (node-Writes host dispatch s)
  node-Adds executor s = unfold node_of in executor-Adds host s
  node-Adds validator s =
      Yields-weaken _ (λ u h. silent-Adds s u h.attempt_log) (node-Writes host validator s)
  node-Adds oversight_git s = unfold node_of in oversight-Adds host s
  node-Adds escalate s =
      Yields-weaken _ (λ u h. rw h (escalate-Adds s)) (node-Writes host escalate s)
  node-Adds advance s = Yields-weaken _ (λ u h. rw h (advance-Adds s)) (node-Writes host advance s)
