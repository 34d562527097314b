-- ===== src/Engine/Defs.antt =====
-- The interface of the graph engine.
use syndicate.Prelude.{ℕ, zero, suc, ◌≡◌, List, [], ◌∷◌}
use syndicate.Exec.{ok, raised, Exception}
use syndicate.State.{AgentState}
use syndicate.State.Update.{overlay}
use syndicate.Graph.{Node, Target, halt, to, StateGraph}

-- How a run ends: at `END`, by an exception of a node, or by `GraphRecursionError`.
pub data Ending : Type 0 where
  completed : Ending
  failed : Exception → Ending
  out_of_steps : Ending

-- What `astream(..., stream_mode='updates')` yields, with the state that `aget_state` returns after.
pub record Run (W : Type 0) : Type 0 where
  pub updates : List (Node × AgentState)
  pub ending : Ending
  pub state : AgentState
  pub world : W

pub record Engine (W : Type 0) : Type 0 where
  -- The run of a graph from a target, with a limit on supersteps.
  pub stream : StateGraph W → ℕ → Target → AgentState → W → Run W

-- A run that stops where it is.
abbrev pub stopped : {W : Type 0} → Ending → AgentState → W → Run W
stopped ending s w = record { updates = []; ending = ending; state = s; world = w }

module _ {W : Type 0} where
  -- One more superstep in front of a run.
  abbrev pub after_update : Node → AgentState → Run W → Run W
  after_update n u r = record r { updates = (n, u) ∷ r.updates }

-- What the documentation says: `END` ends a run, the limit is on supersteps, an exception of a node
-- ends the run and writes nothing, and an update replaces the keys that it gives.
pub record IsLanggraph {W : Type 0} (e : Engine W) : Type 0 where
  pub at_end :
      (g : StateGraph W) (limit : ℕ) (s : AgentState) (w : W)
      → e.stream g limit halt s w ≡ stopped completed s w
  pub at_limit :
      (g : StateGraph W) (n : Node) (s : AgentState) (w : W)
      → e.stream g zero (to n) s w ≡ stopped out_of_steps s w
  pub at_raise :
      (g : StateGraph W) (limit : ℕ) (n : Node) (s : AgentState) (w w' : W) (x : Exception)
      → g.node n s w ≡ (raised x, w')
      → e.stream g (suc limit) (to n) s w ≡ stopped (failed x) s w'
  pub at_update :
      (g : StateGraph W) (limit : ℕ) (n : Node) (s u : AgentState) (w w' : W)
      → g.node n s w ≡ (ok u, w')
      → e.stream g (suc limit) (to n) s w
        ≡ after_update n u (e.stream g limit (g.edge n (overlay s u)) (overlay s u) w')
