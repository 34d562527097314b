-- ===== src/Run/Landed.antt =====
-- What a ticket that is `DONE` at the end of a run says of the repository.
use mathlib.Core.Logic.{inl, inr}
use syndicate.Prelude.{
  ℕ, zero, suc, ◌≡◌, ◌⊎◌, refl, ap, subst, String, true, false, Option, some, is_empty, truthy_flag,
}
use syndicate.Exec.{Result, ok, raised, Exception, pure}
use syndicate.Exec.Invert.{pure-eq-ok}
use syndicate.Exec.Yields.{Yields, Returned}
use syndicate.State.{AgentState, done, is_done}
use syndicate.State.Update.{no_update, overlay}
use syndicate.Host.{Host}
use syndicate.Nodes.Ledger.{advance_node}
use syndicate.Nodes.Executor.{ticket_of}
use syndicate.Nodes.Oversight.{files_of, oversight_git_node}
use syndicate.Nodes.Oversight.Done.{ReportsHead, Verified, oversight-done}
use syndicate.Graph.{
  Node, Target, halt, to, analyzer, architect, dispatch, executor, validator, oversight_git,
  escalate, advance, edge_of, node_of, build_graph,
}
use syndicate.Graph.Writes.{NodeWrites, node-Writes}
use syndicate.Engine.{Engine, IsLanggraph, Run, run, settle, stream-run}
use syndicate.Run.Honest.{IsHonest, IsHonest-settled, step-IsHonest}

module _ {W : Type 0} (host : Host W) (t₀ : Target) (s₀ : AgentState) (w₀ : W) where
  -- The targets, with state and world, that a run goes through.
  pub data Reached : Target → AgentState → W → Type 0 where
    begins : Reached t₀ s₀ w₀
    steps :
        (n : Node) (s u : AgentState) (w w' : W)
        → Reached (to n) s w
        → node_of host n s w ≡ (ok u, w')
        → Reached (edge_of n (overlay s u)) (overlay s u) w'

  -- The run went through the oversight of git, which reported `DONE` for a ticket that had passed its
  -- validation, and left the world as it is.
  pub record IsLanded (w : W) : Type 0 where
    pub state : AgentState
    pub world : W
    pub update : AgentState
    pub reached : Reached (to oversight_git) state world
    pub passed : truthy_flag state.last_validation_passed ≡ true
    pub reported : oversight_git_node host state world ≡ (ok update, w)
    pub status : update.ticket_status ≡ some done

  -- The report of the oversight of git.
  oversight-IsLanded :
      (n : Node) (s u : AgentState) (w w' : W)
      → n ≡ oversight_git
      → Reached (to n) s w
      → node_of host n s w ≡ (ok u, w')
      → IsHonest (IsLanded w) (to n) s
      → u.ticket_status ≡ some done
      → IsLanded w'
  unfolding node_of
  oversight-IsLanded n s u w w' at r e h d =
      let there = subst (λ m. IsHonest (IsLanded w) (to m) s) at h in
      record {
        state = s;
        world = w;
        update = u;
        reached = subst (λ m. Reached (to m) s w) at r;
        passed = there.1;
        reported = subst (λ m. node_of host m s w ≡ (ok u, w')) at e;
        status = d;
      }

  -- The two nodes behind a report do not act on the world.
  dispatch_kept :
      (n : Node) (s u : AgentState) (w w' : W)
      → n ≡ dispatch
      → node_of host n s w ≡ (ok u, w')
      → w ≡ w'
  unfolding node_of
  dispatch_kept n s u w w' at e =
      (pure-eq-ok no_update w (subst (λ m. node_of host m s w ≡ (ok u, w')) at e)).1

  advance_kept :
      (n : Node) (s u : AgentState) (w w' : W)
      → n ≡ advance
      → node_of host n s w ≡ (ok u, w')
      → w ≡ w'
  unfolding node_of
  advance_kept n s u w w' at e =
      (pure-eq-ok (advance_node s) w (subst (λ m. node_of host m s w ≡ (ok u, w')) at e)).1

  Reached-IsHonest :
      (n : Node) (s u : AgentState) (w w' : W)
      → Reached (to n) s w
      → node_of host n s w ≡ (ok u, w')
      → NodeWrites host n s u
      → IsHonest (IsLanded w) (to n) s
      → IsHonest (IsLanded w') (edge_of n (overlay s u)) (overlay s u)
  Reached-IsHonest n s u w w' r e x h =
      step-IsHonest host (IsLanded w) (IsLanded w') n s u x
        (λ at d. oversight-IsLanded n s u w w' at r e h d)
        (λ at l. subst IsLanded (dispatch_kept n s u w w' at e) l)
        (λ at l. subst IsLanded (advance_kept n s u w w' at e) l) h

  -- Where the run is when a node raises, no ticket is done.
  raised-not-done :
      (n : Node) (s : AgentState) (x : Exception) (w w' : W)
      → node_of host n s w ≡ (raised x, w')
      → IsHonest (IsLanded w) (to n) s
      → is_done s.ticket_status ≡ false
  unfolding node_of pure
  raised-not-done analyzer s x w w' e h = h
  raised-not-done architect s x w w' e h = h
  raised-not-done dispatch s x w w' e h = absurd (cc (ap (λ (p : Result AgentState × W). p.0) e))
  raised-not-done executor s x w w' e h = h
  raised-not-done validator s x w w' e h = h
  raised-not-done oversight_git s x w w' e h = h.0
  raised-not-done escalate s x w w' e h = h
  raised-not-done advance s x w w' e h = absurd (cc (ap (λ (p : Result AgentState × W). p.0) e))

  -- A ticket that is done at the end was just committed.
  abbrev pub EndsLanded : Run W → Type 0
  EndsLanded r = (is_done r.state.ticket_status ≡ false) ⊎ IsLanded r.world

  settle-EndsLanded :
      (limit : ℕ) (n : Node) (s : AgentState) (r : Result AgentState) (w w' : W)
      → ((t : Target) (s' : AgentState) (v : W)
          → Reached t s' v
          → IsHonest (IsLanded v) t s'
          → EndsLanded (run (build_graph host) limit t s' v))
      → node_of host n s w ≡ (r, w')
      → Returned (NodeWrites host n s) r
      → Reached (to n) s w
      → IsHonest (IsLanded w) (to n) s
      → EndsLanded (settle (build_graph host) (run (build_graph host) limit) n s r w')
  unfolding build_graph
  settle-EndsLanded limit n s (raised x) w w' ih e y r h = inl (raised-not-done n s x w w' e h)
  settle-EndsLanded limit n s (ok u) w w' ih e y r h =
      ih _ _ w' (steps n s u w w' r e) (Reached-IsHonest n s u w w' r e y h)

  run-EndsLanded :
      (limit : ℕ) (t : Target) (s : AgentState) (w : W)
      → Reached t s w
      → IsHonest (IsLanded w) t s
      → EndsLanded (run (build_graph host) limit t s w)
  unfolding run build_graph
  run-EndsLanded zero halt s w r h = IsHonest-settled (IsLanded w) halt s h
  run-EndsLanded zero (to n) s w r h = IsHonest-settled (IsLanded w) (to n) s h
  run-EndsLanded (suc limit) halt s w r h = IsHonest-settled (IsLanded w) halt s h
  run-EndsLanded (suc limit) (to n) s w r h =
      settle-EndsLanded limit n s _ w _ (run-EndsLanded limit) refl ((node-Writes host n s).at w) r
        h

module _ {W : Type 0} (engine : Engine W) (lawful : IsLanggraph engine) (host : Host W)
    (head_of : String → W → Option String) where
  -- What a ticket that is done stands for in the world that a run from a state and a world leaves.
  pub record IsCommitted (s₀ : AgentState) (w₀ w : W) : Type 0 where
    pub landed : IsLanded host (to analyzer) s₀ w₀ w
    pub files : is_empty (files_of (ticket_of landed.state)) ≡ false
    pub verified : Verified head_of host landed.state landed.world w

  IsLanded-IsCommitted :
      (s₀ : AgentState) (w₀ w : W)
      → ((cwd : String) → Yields (ReportsHead head_of cwd) host.get_runtime_client)
      → IsLanded host (to analyzer) s₀ w₀ w
      → IsCommitted s₀ w₀ w
  IsLanded-IsCommitted s₀ w₀ w honest l =
      let (files, verified) =
        oversight-done head_of host l.state l.world (honest _) l.reported l.status in
      record { landed = l; files = files; verified = verified }

  -- Take a sandbox that answers `git rev-parse HEAD` truly in each directory, and a run from a state
  -- whose ticket is not done, with any limit and however it ends. If the ticket is done at the end, then
  -- the run went through `oversight_git_node` in a state whose ticket had passed its validation and
  -- declared files, and there, with the client that the node was given in that world, they were staged
  -- and committed with exit code 0, and `HEAD` of the ticket's workspace resolves to a name that it did
  -- not have before the commit; the run leaves the world as the node left it.
  pub stream-IsCommitted :
      (limit : ℕ) (s : AgentState) (w : W)
      → ((cwd : String) → Yields (ReportsHead head_of cwd) host.get_runtime_client)
      → is_done s.ticket_status ≡ false
      → let r = engine.stream (build_graph host) limit (to (build_graph host).entry_point) s w in
        (is_done r.state.ticket_status ≡ false) ⊎ IsCommitted s w r.world
  unfolding build_graph
  stream-IsCommitted limit s w honest fresh =
      rw (stream-run engine lawful)
        (elim (run-EndsLanded host (to analyzer) s w limit (to analyzer) s w begins fresh) [
          | inl other ↦ inl other
          | inr l ↦ inr (IsLanded-IsCommitted s w _ honest l)
        ])
