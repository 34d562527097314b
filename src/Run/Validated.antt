-- ===== src/Run/Validated.antt =====
-- What a ticket that has passed its validation at the end of a run says of the sandbox.
use mathlib.Core.Logic.{inl}
use syndicate.Prelude.{
  ℕ, zero, suc, ◌≡◌, ◌⊎◌, refl, sym, ap, subst, true, false, Option, none, some, given, truthy_flag,
  arith,
}
use syndicate.Exec.{Result, ok, raised}
use syndicate.Exec.Yields.{Returned}
use syndicate.State.{AgentState, Ticket}
use syndicate.State.Update.{overlay}
use syndicate.Host.{Host}
use syndicate.Nodes.Ledger.{escalate_node, advance_node}
use syndicate.Graph.{
  Node, Target, halt, to, analyzer, architect, dispatch, executor, validator, oversight_git,
  escalate, advance, edge_of, node_of, build_graph,
}
use syndicate.Graph.Writes.{NodeWrites, node-Writes}
use syndicate.Engine.{Engine, IsLanggraph, Run, run, settle, stream-run}
use syndicate.Run.Landed.{Reached, begins, steps}
use syndicate.Nodes.Executed.{IsExecuted, validator-IsExecuted}

-- Where in a run a validation may have passed: `L` says that the one of the ticket did.
module _ (L : Type 0) where
  abbrev IsTrusted : Target → AgentState → Type 0
  IsTrusted halt s = (truthy_flag s.last_validation_passed ≡ false) ⊎ L
  IsTrusted (to analyzer) s = truthy_flag s.last_validation_passed ≡ false
  IsTrusted (to architect) s = truthy_flag s.last_validation_passed ≡ false
  IsTrusted (to dispatch) s = (truthy_flag s.last_validation_passed ≡ false) ⊎ L
  IsTrusted (to executor) s = (truthy_flag s.last_validation_passed ≡ false) ⊎ L
  IsTrusted (to validator) s = (truthy_flag s.last_validation_passed ≡ false) ⊎ L
  IsTrusted (to oversight_git) s = (truthy_flag s.last_validation_passed ≡ false) ⊎ L
  IsTrusted (to escalate) s = (truthy_flag s.last_validation_passed ≡ false) ⊎ L
  IsTrusted (to advance) s = (truthy_flag s.last_validation_passed ≡ false) ⊎ L

  IsTrusted-settled :
      (t : Target) (s : AgentState)
      → IsTrusted t s
      → (truthy_flag s.last_validation_passed ≡ false) ⊎ L
  IsTrusted-settled halt s h = h
  IsTrusted-settled (to analyzer) s h = inl h
  IsTrusted-settled (to architect) s h = inl h
  IsTrusted-settled (to dispatch) s h = h
  IsTrusted-settled (to executor) s h = h
  IsTrusted-settled (to validator) s h = h
  IsTrusted-settled (to oversight_git) s h = h
  IsTrusted-settled (to escalate) s h = h
  IsTrusted-settled (to advance) s h = h

-- A node takes a run that is trusted to one that is. `K` is what is known after it.
module _ {W : Type 0} (host : Host W) (L K : Type 0) where
  step-IsTrusted :
      (n : Node) (s u : AgentState)
      → NodeWrites host n s u
      → (n ≡ validator → u.last_validation_passed ≡ some true → K)
      → (u.active_ticket ≡ none → L → K)
      → IsTrusted L (to n) s
      → IsTrusted K (edge_of n (overlay s u)) (overlay s u)
  unfolding edge_of escalate_node advance_node
  step-IsTrusted analyzer s u x v a h = ground arith
  step-IsTrusted architect s u x v a h = ground arith
  step-IsTrusted dispatch s u x v a h = ground arith
  step-IsTrusted executor s u x v a h = ground arith
  step-IsTrusted validator s u x v a h = ground arith
  step-IsTrusted oversight_git s u x v a h = ground arith
  step-IsTrusted escalate s u x v a h = ground arith
  step-IsTrusted advance s u x v a h = ground arith

module _ {W : Type 0} (host : Host W) (s₀ : AgentState) (w₀ : W) where
  -- The run went through the validator with the ticket, and the verification command was run then and
  -- exited with 0, or the sandbox was the mock.
  pub record IsValidated (ticket : Option Ticket) : Type 0 where
    pub state : AgentState
    pub world : W
    pub after : W
    pub reached : Reached host (to analyzer) s₀ w₀ (to validator) state world
    pub planned : state.active_ticket ≡ ticket
    pub executed : IsExecuted host state world after

  validator-IsValidated :
      (n : Node) (s u : AgentState) (w w' : W)
      → n ≡ validator
      → Reached host (to analyzer) s₀ w₀ (to n) s w
      → node_of host n s w ≡ (ok u, w')
      → NodeWrites host n s u
      → u.last_validation_passed ≡ some true
      → IsValidated (given u.active_ticket s.active_ticket)
  unfolding node_of
  validator-IsValidated n s u w w' at r e x d =
      let y = subst (λ m. NodeWrites host m s u) at x in
      record {
        state = s;
        world = w;
        after = w';
        reached = subst (λ m. Reached host (to analyzer) s₀ w₀ (to m) s w) at r;
        planned = sym (ap (λ t. given t s.active_ticket) y.keeps.active_ticket);
        executed =
            validator-IsExecuted host s u w w' (subst (λ m. node_of host m s w ≡ (ok u, w')) at e)
              (ap truthy_flag d);
      }

  Reached-IsTrusted :
      (n : Node) (s u : AgentState) (w w' : W)
      → Reached host (to analyzer) s₀ w₀ (to n) s w
      → node_of host n s w ≡ (ok u, w')
      → NodeWrites host n s u
      → IsTrusted (IsValidated s.active_ticket) (to n) s
      → IsTrusted (IsValidated (overlay s u).active_ticket) (edge_of n (overlay s u)) (overlay s u)
  Reached-IsTrusted n s u w w' r e x h =
      step-IsTrusted host (IsValidated s.active_ticket) (IsValidated (overlay s u).active_ticket) n
        s u x (λ at d. validator-IsValidated n s u w w' at r e x d)
        (λ at l. subst IsValidated (sym (ap (λ t. given t s.active_ticket) at)) l) h

  -- A validation that has passed at the end is one of the ticket that the run ends with.
  abbrev EndsValidated : Run W → Type 0
  EndsValidated r =
      (truthy_flag r.state.last_validation_passed ≡ false) ⊎ IsValidated r.state.active_ticket

  settle-EndsValidated :
      (limit : ℕ) (n : Node) (s : AgentState) (r : Result AgentState) (w w' : W)
      → ((t : Target) (s' : AgentState) (v : W)
          → Reached host (to analyzer) s₀ w₀ t s' v
          → IsTrusted (IsValidated s'.active_ticket) t s'
          → EndsValidated (run (build_graph host) limit t s' v))
      → node_of host n s w ≡ (r, w')
      → Returned (NodeWrites host n s) r
      → Reached host (to analyzer) s₀ w₀ (to n) s w
      → IsTrusted (IsValidated s.active_ticket) (to n) s
      → EndsValidated (settle (build_graph host) (run (build_graph host) limit) n s r w')
  unfolding build_graph
  settle-EndsValidated limit n s (raised x) w w' ih e y r h = IsTrusted-settled _ (to n) s h
  settle-EndsValidated limit n s (ok u) w w' ih e y r h =
      ih _ _ w' (steps n s u w w' r e) (Reached-IsTrusted n s u w w' r e y h)

  run-EndsValidated :
      (limit : ℕ) (t : Target) (s : AgentState) (w : W)
      → Reached host (to analyzer) s₀ w₀ t s w
      → IsTrusted (IsValidated s.active_ticket) t s
      → EndsValidated (run (build_graph host) limit t s w)
  unfolding run build_graph
  run-EndsValidated zero halt s w r h = h
  run-EndsValidated zero (to n) s w r h = IsTrusted-settled _ (to n) s h
  run-EndsValidated (suc limit) halt s w r h = h
  run-EndsValidated (suc limit) (to n) s w r h =
      settle-EndsValidated limit n s _ w _ (run-EndsValidated limit) refl
        ((node-Writes host n s).at w) r h

module _ {W : Type 0} (engine : Engine W) (lawful : IsLanggraph engine) (host : Host W) where
  -- Take a run from a state in which no validation has passed, over any sandbox and any model, with any
  -- limit and however it ends. If its last state says that the validation passed, then the run went
  -- through `validator_node` with the very ticket that it ends with, and there the verification command
  -- of the ticket, or the default one, was run in the ticket's workspace and exited with 0, or the
  -- sandbox was the mock.
  pub stream-IsValidated :
      (limit : ℕ) (s : AgentState) (w : W)
      → truthy_flag s.last_validation_passed ≡ false
      → let r = engine.stream (build_graph host) limit (to (build_graph host).entry_point) s w in
        (truthy_flag r.state.last_validation_passed ≡ false)
        ⊎ IsValidated host s w r.state.active_ticket
  unfolding build_graph
  stream-IsValidated limit s w fresh =
      rw (stream-run engine lawful)
        (run-EndsValidated host s w limit (to analyzer) s w begins fresh)
