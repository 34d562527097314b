-- ===== src/Run/Terminates.antt =====
-- The loops of the graph are bounded: each round through the executor costs a strike.
use syndicate.Prelude.{
  ℕ, zero, suc, ◌+◌, ◌-◌, ◌*◌, ◌≤◌, max, ◌≡◌, ◌≢◌, ◌⊎◌, true, arith, or_zero, truthy_flag,
}
use syndicate.Exec.{Result, ok, raised}
use syndicate.Exec.Yields.{Returned}
use syndicate.State.{AgentState, is_escalated}
use syndicate.State.Update.{overlay}
use syndicate.Host.{Host}
use syndicate.Nodes.Ledger.{escalate_node, advance_node}
use syndicate.Graph.{
  Node, Target, halt, to, analyzer, architect, dispatch, executor, validator, oversight_git,
  escalate, advance, dispatch_router, edge_of, build_graph,
}
use syndicate.Graph.Writes.{NodeWrites, node-Writes}
use syndicate.Engine.{Engine, IsLanggraph, out_of_steps, run, settle, stream-run}

-- The supersteps that the executor, and all that follows it, may take: three for each attempt that
-- the budget leaves, and three to escalate.
abbrev pub rounds : AgentState → ℕ
rounds s = 3 * max (3 - or_zero s.strike_count) 1 + 3

-- That many supersteps are enough for the rest of the run.
abbrev pub IsEnough : Target → AgentState → ℕ → Type 0
IsEnough halt s limit = Unit
IsEnough (to analyzer) s limit = 15 ≤ limit
IsEnough (to architect) s limit = 14 ≤ limit
IsEnough (to dispatch) s limit = ((dispatch_router s ≡ halt) × (1 ≤ limit)) ⊎ (13 ≤ limit)
IsEnough (to executor) s limit = rounds s ≤ limit
IsEnough (to validator) s limit = rounds s ≤ limit + 1
IsEnough (to oversight_git) s limit =
    (truthy_flag s.last_validation_passed ≡ true) × (rounds s ≤ limit + 2)
IsEnough (to escalate) s limit = 3 ≤ limit
IsEnough (to advance) s limit =
    ((truthy_flag s.last_validation_passed ≡ true) ⊎ (is_escalated s.ticket_status ≡ true))
    × (2 ≤ limit)

pub not-IsEnough-zero : (n : Node) (s : AgentState) → IsEnough (to n) s zero → ⊥
not-IsEnough-zero analyzer s h = omega arith
not-IsEnough-zero architect s h = omega arith
not-IsEnough-zero dispatch s h = omega arith
not-IsEnough-zero executor s h = omega arith
not-IsEnough-zero validator s h = omega arith
not-IsEnough-zero oversight_git s h = omega arith
not-IsEnough-zero escalate s h = omega arith
not-IsEnough-zero advance s h = omega arith

module _ {W : Type 0} (host : Host W) where
  pub step-IsEnough :
      (n : Node) (s u : AgentState) (limit : ℕ)
      → NodeWrites host n s u
      → IsEnough (to n) s (suc limit)
      → IsEnough (edge_of n (overlay s u)) (overlay s u) limit
  unfolding edge_of escalate_node advance_node
  step-IsEnough analyzer s u limit x h = omega arith
  step-IsEnough architect s u limit x h = ground arith
  step-IsEnough dispatch s u limit x h = ground arith
  step-IsEnough executor s u limit x h = ground arith
  step-IsEnough validator s u limit x h = ground arith
  step-IsEnough oversight_git s u limit x h = ground arith
  step-IsEnough escalate s u limit x h = ground arith
  step-IsEnough advance s u limit x h = ground arith

  settle-terminates :
      (limit : ℕ) (n : Node) (s : AgentState) (r : Result AgentState) (w : W)
      → ((t : Target) (s' : AgentState) (v : W)
          → IsEnough t s' limit
          → (run (build_graph host) limit t s' v).ending ≢ out_of_steps)
      → Returned (NodeWrites host n s) r
      → IsEnough (to n) s (suc limit)
      → (settle (build_graph host) (run (build_graph host) limit) n s r w).ending ≢ out_of_steps
  unfolding build_graph
  settle-terminates limit n s (raised x) w ih y h = λ e. cc
  settle-terminates limit n s (ok u) w ih y h = ih _ _ w (step-IsEnough n s u limit y h)

  run-terminates :
      (limit : ℕ) (t : Target) (s : AgentState) (w : W)
      → IsEnough t s limit
      → (run (build_graph host) limit t s w).ending ≢ out_of_steps
  unfolding run
  run-terminates zero halt s w h = λ e. cc
  run-terminates (suc limit) halt s w h = λ e. cc
  run-terminates zero (to n) s w h = absurd (not-IsEnough-zero n s h)
  run-terminates (suc limit) (to n) s w h =
      settle-terminates limit n s _ _ (run-terminates limit)
        (unfold build_graph in (node-Writes host n s).at w) h

module _ {W : Type 0} (engine : Engine W) (lawful : IsLanggraph engine) (host : Host W) where
  -- Whatever the sandbox, the model and the state that a run starts from, and whether the client is
  -- the mock or not, a limit of 15 supersteps or more never runs out.
  pub stream_terminates :
      (limit : ℕ) (s : AgentState) (w : W)
      → 15 ≤ limit
      → (engine.stream (build_graph host) limit (to (build_graph host).entry_point) s w).ending
        ≢ out_of_steps
  unfolding build_graph
  stream_terminates limit s w h =
      rw (stream-run engine lawful) (run-terminates host limit (to analyzer) s w h)
