-- ===== src/Engine/Reference.antt =====
-- An engine that the laws hold of. The laws leave no choice: every such engine agrees with it.
use syndicate.Prelude.{ℕ, zero, suc, ◌≡◌, refl, ◌∙◌, ap}
use syndicate.Exec.{Result, ok, raised}
use syndicate.State.{AgentState}
use syndicate.State.Update.{overlay}
use syndicate.Graph.{Node, Target, halt, to, StateGraph}
use syndicate.Engine.Defs.{
  Engine, IsLanggraph, Run, completed, failed, out_of_steps, stopped, after_update,
}

module _ {W : Type 0} (g : StateGraph W) where
  -- What follows a node's result.
  abbrev pub settle :
      (Target → AgentState → W → Run W) → Node → AgentState → Result AgentState → W → Run W
  settle rest n s (raised x) w = stopped (failed x) s w
  settle rest n s (ok u) w = after_update n u (rest (g.edge n (overlay s u)) (overlay s u) w)

  unfoldable pub run : ℕ → Target → AgentState → W → Run W
  run limit halt s w = stopped completed s w
  run zero (to n) s w = stopped out_of_steps s w
  run (suc limit) (to n) s w = settle (run limit) n s (g.node n s w).0 (g.node n s w).1

abbrev pub reference : {W : Type 0} → Engine W
reference = record { stream = run }

pub reference-IsLanggraph : {W : Type 0} → IsLanggraph (reference {W = W})
unfolding run
reference-IsLanggraph = record {
  at_end = λ g limit s w. at_halt g limit s w;
  at_limit = λ g n s w. refl;
  at_raise = λ g limit n s w w' x e. rw e;
  at_update = λ g limit n s u w w' e. rw e;
}
  where
    at_halt :
        {W : Type 0} (g : StateGraph W) (limit : ℕ) (s : AgentState) (w : W)
        → run g limit halt s w ≡ stopped completed s w
    at_halt g zero s w = refl
    at_halt g (suc limit) s w = refl

module _ {W : Type 0} (e : Engine W) (lawful : IsLanggraph e) (g : StateGraph W) where
  -- The cases of one superstep.
  agrees_settle :
      (limit : ℕ) (n : Node) (s : AgentState) (w : W) (r : Result AgentState) (w' : W)
      → ((t : Target) (s' : AgentState) (v : W) → e.stream g limit t s' v ≡ run g limit t s' v)
      → g.node n s w ≡ (r, w')
      → e.stream g (suc limit) (to n) s w ≡ settle g (run g limit) n s r w'
  agrees_settle limit n s w (raised x) w' ih p = lawful.at_raise g limit n s w w' x p
  agrees_settle limit n s w (ok u) w' ih p =
      lawful.at_update g limit n s u w w' p
      ∙ ap (after_update n u) (ih (g.edge n (overlay s u)) (overlay s u) w')

  -- Every engine that the documentation describes has the runs of the reference engine.
  pub stream-run :
      (limit : ℕ) (t : Target) (s : AgentState) (w : W) → e.stream g limit t s w ≡ run g limit t s w
  unfolding run
  stream-run zero halt s w = lawful.at_end g zero s w
  stream-run (suc limit) halt s w = lawful.at_end g (suc limit) s w
  stream-run zero (to n) s w = lawful.at_limit g n s w
  stream-run (suc limit) (to n) s w =
      agrees_settle limit n s w (g.node n s w).0 (g.node n s w).1 (stream-run limit) refl
