-- ===== src/Run/Calls.antt =====
-- How often a run calls the language model.
use syndicate.Prelude.{ℕ, zero, suc, ◌+◌, ◌≤◌, ◌≡◌, ◌⊎◌, true, arith, or_zero, truthy_flag}
use syndicate.Exec.{Result, ok, raised}
use syndicate.Exec.Yields.{Returned}
use syndicate.Exec.Within.{left}
use syndicate.State.{AgentState, is_escalated}
use syndicate.State.Update.{overlay}
use syndicate.Host.{Host}
use syndicate.Nodes.Calls.{Counts, allowance}
use syndicate.Nodes.Ledger.{escalate_node, advance_node}
use syndicate.Graph.{
  Node, Target, halt, to, analyzer, architect, dispatch, executor, validator, oversight_git,
  escalate, advance, dispatch_router, edge_of, node_of, build_graph,
}
use syndicate.Graph.Writes.{NodeWrites, node-Writes}
use syndicate.Graph.Calls.{budget_of, left_of, node-Within}
use syndicate.Engine.{Engine, IsLanggraph, run, settle, stream-run}

-- The routers after the last node of a ticket end the run.
abbrev Settled : Target → AgentState → Type 0
Settled (to oversight_git) s = truthy_flag s.last_validation_passed ≡ true
Settled (to advance) s =
    (truthy_flag s.last_validation_passed ≡ true) ⊎ (is_escalated s.ticket_status ≡ true)
Settled _ s = Unit

abbrev when_going : Target → ℕ
when_going halt = 0
when_going (to n) = 75

-- The calls that the rest of a run may make.
abbrev allowed : Target → AgentState → ℕ
allowed halt s = 0
allowed (to analyzer) s = 77
allowed (to architect) s = 76
allowed (to dispatch) s = when_going (dispatch_router s)
allowed (to executor) s = allowance (or_zero s.strike_count)
allowed (to validator) s = allowance (or_zero s.strike_count)
allowed (to oversight_git) s = allowance (or_zero s.strike_count)
allowed (to escalate) s = 0
allowed (to advance) s = 0

module _ {W : Type 0} {tally : W → ℕ} {host : Host W} (k : Counts tally host) where
  step-Settled :
      (n : Node) (s u : AgentState)
      → NodeWrites host n s u
      → Settled (to n) s
      → Settled (edge_of n (overlay s u)) (overlay s u)
  unfolding edge_of escalate_node advance_node
  step-Settled analyzer s u x h = tt
  step-Settled architect s u x h = tt
  step-Settled dispatch s u x h = ground arith
  step-Settled executor s u x h = tt
  step-Settled validator s u x h = ground arith
  step-Settled oversight_git s u x h = ground arith
  step-Settled escalate s u x h = ground arith
  step-Settled advance s u x h = tt

  -- What a node may spend, and the rest of the run after it, is within what was allowed.
  step-allowed :
      (n : Node) (s u : AgentState)
      → NodeWrites host n s u
      → Settled (to n) s
      → allowed (edge_of n (overlay s u)) (overlay s u) + budget_of k n s
        ≤ allowed (to n) s + left_of k n s u
  unfolding edge_of escalate_node advance_node
  step-allowed analyzer s u x h = omega arith
  step-allowed architect s u x h = ground arith
  step-allowed dispatch s u x h = ground arith
  step-allowed executor s u x h = ground arith
  step-allowed validator s u x h = ground arith
  step-allowed oversight_git s u x h = ground arith
  step-allowed escalate s u x h = ground arith
  step-allowed advance s u x h = ground arith

  budget-le-allowed : (n : Node) (s : AgentState) → budget_of k n s ≤ allowed (to n) s
  budget-le-allowed analyzer s = omega arith
  budget-le-allowed architect s = omega arith
  budget-le-allowed dispatch s = omega arith
  budget-le-allowed executor s = omega arith
  budget-le-allowed validator s = omega arith
  budget-le-allowed oversight_git s = omega arith
  budget-le-allowed escalate s = omega arith
  budget-le-allowed advance s = omega arith

  settle-calls :
      (limit : ℕ) (n : Node) (s : AgentState) (r : Result AgentState) (w' w : W)
      → ((t : Target) (s' : AgentState) (v : W)
          → Settled t s'
          → tally (run (build_graph host) limit t s' v).world ≤ tally v + allowed t s')
      → Returned (NodeWrites host n s) r
      → Settled (to n) s
      → tally w' + left (left_of k n s) r ≤ tally w + budget_of k n s
      → tally (settle (build_graph host) (run (build_graph host) limit) n s r w').world
        ≤ tally w + allowed (to n) s
  unfolding build_graph
  settle-calls limit n s (raised x) w' w ih y h e = omega (arith, budget-le-allowed n s)
  settle-calls limit n s (ok u) w' w ih y h e =
      omega (arith, step-allowed n s u y h, ih _ _ w' (step-Settled n s u y h))

  run-calls :
      (limit : ℕ) (t : Target) (s : AgentState) (w : W)
      → Settled t s
      → tally (run (build_graph host) limit t s w).world ≤ tally w + allowed t s
  unfolding run build_graph
  run-calls zero halt s w h = omega arith
  run-calls (suc limit) halt s w h = omega arith
  run-calls zero (to n) s w h = omega arith
  run-calls (suc limit) (to n) s w h =
      settle-calls limit n s (node_of host n s w).0 (node_of host n s w).1 w (run-calls limit)
        ((node-Writes host n s).at w) h ((node-Within k n s).at w)

module _ {W : Type 0} (engine : Engine W) (lawful : IsLanggraph engine) {host : Host W} where
  -- If `tally` counts the calls of the language model, then a run makes 77 of them at most, however
  -- it ends and whatever the state that it starts from: one for the analyzer, one for the architect,
  -- and 25 for each of three attempts.
  pub stream-calls :
      {tally : W → ℕ} (limit : ℕ) (s : AgentState) (w : W)
      → Counts tally host
      → tally (engine.stream (build_graph host) limit (to (build_graph host).entry_point) s w).world
        ≤ tally w + 77
  unfolding build_graph
  stream-calls limit s w k = rw (stream-run engine lawful) (run-calls k limit (to analyzer) s w tt)
