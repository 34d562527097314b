-- ===== src/Scripts/MockPath.antt =====
-- The run of scripts/smoke_e2e_mock.py over a mock of the sandbox.
use mathlib.Core.Bool.{false≢true}
use syndicate.Prelude.{
  ◌∙◌, ℕ, zero, suc, ◌≡◌, refl, sym, ap, subst, String, true, Option, none, some, List, [], ◌∷◌,
  map, ◌++◌, is_empty,
}
use syndicate.Exec.{Result, ok, raised, when◌perform◌otherwise◌}
use syndicate.Exec.Total.{Success, Total, Total-pure, Total-when, Total-bind, at_weaken}
use syndicate.State.{AgentState, local_pass}
use syndicate.State.Update.{no_update, overlay}
use syndicate.Runtime.Base.{RuntimeClient}
use syndicate.Host.{Host}
use syndicate.Nodes.Executor.{ticket_of, run_dummies, executor_node}
use syndicate.Nodes.Validator.{validator_node}
use syndicate.Nodes.Oversight.{run, identify, files_of, oversight_git_node}
use syndicate.Nodes.Ledger.{advance_node}
use syndicate.Nodes.Architect.{architect_node, when_both}
use syndicate.Nodes.Analyzer.{stub_ticket, analyzer_node}
use syndicate.Graph.{
  Node, Target, halt, to, analyzer, architect, dispatch, executor, validator, oversight_git,
  advance, edge_of, node_of, build_graph,
}
use syndicate.Engine.{Engine, IsLanggraph, Run, Ending, settle, stream-run}
use syndicate.Engine
use syndicate.Scripts.Checks.{require-Total}
use syndicate.Scripts.RunRealIssue.{invoked, ainvoke}
use syndicate.Scripts.SmokeMock.{expected_transitions, name_of, same_texts, chunks, astream, main}

-- The client is the mock, and none of its actions raises.
pub record IsMockClient {W : Type 0} (client : RuntimeClient W) : Type 0 where
  pub mock : client.is_mock ≡ true
  pub acts :
      (action : String) (cwd : Option String) (timeout : Option ℕ)
      → Total (λ result. Unit {0}) (client.run_action action cwd timeout)

module _ {W : Type 0} (host : Host W) (given : Total IsMockClient host.get_runtime_client) where
  abbrev IsLogged : AgentState → Type 0
  IsLogged u =
      (log : List String) × (u
        ≡ record no_update { attempt_log = some log; ticket_status = some local_pass })

  dummies-IsLogged :
      (client : RuntimeClient W)
      → IsMockClient client
      → (actions log : List String) → Total IsLogged (run_dummies host client log actions)
  unfolding run_dummies
  dummies-IsLogged client c [] log = Total-pure _ (log, refl)
  dummies-IsLogged client c (action ∷ actions) log =
      Total-bind _ _ (c.acts action none none) λ result done. dummies-IsLogged client c actions _

  executor-IsLogged : (s : AgentState) → Total IsLogged (executor_node host s)
  unfolding executor_node
  executor-IsLogged s = Total-bind _ _ given λ client c.
      Total-when _ _ _ (λ mock. dummies-IsLogged client c _ _)
        λ real. absurd (false≢true (sym real ∙ c.mock))

  validator-Passes :
      (s : AgentState)
      → Total
          (λ u. u ≡ record no_update { last_validation_passed = some true })
          (validator_node host s)
  unfolding validator_node
  validator-Passes s = Total-bind _ _ given λ client c.
      Total-when _ _ _ (λ mock. Total-pure _ refl) λ real. absurd (false≢true (sym real ∙ c.mock))

  run-Total :
      (client : RuntimeClient W)
      → IsMockClient client
      → (cwd command : String) (log : List String)
      → Total (λ result. Unit {0}) (run client cwd command log)
  unfolding run
  run-Total client c cwd command log =
      Total-bind _ _ (c.acts command (some cwd) none) λ result done. Total-pure _ tt

  identify-Total :
      (client : RuntimeClient W)
      → IsMockClient client
      → (cwd : String) → Total (λ log. Unit {0}) (identify client cwd)
  unfolding identify
  identify-Total client c cwd = Total-bind _ _ (run-Total client c cwd _ []) λ found done.
      Total-bind {P = λ log. Unit {0}} _ _
        (Total-when _ _ _ (λ here. Total-pure _ tt)
          λ missing. Total-bind _ _ (run-Total client c cwd _ _) λ made done'. Total-pure _ tt)
        λ log done'. Total-bind _ _ (run-Total client c cwd _ _) λ name done''.
          Total-bind _ _ (run-Total client c cwd _ _) λ email done'''. Total-pure _ tt

  abbrev IsAppended : AgentState → Type 0
  IsAppended u = (log : List String) × (u ≡ record no_update { attempt_log = some log })

  oversight-IsAppended :
      (s : AgentState)
      → is_empty (files_of (ticket_of s)) ≡ true
      → Total IsAppended (oversight_git_node host s)
  unfolding oversight_git_node when◌perform◌otherwise◌
  oversight-IsAppended s none_declared = Total-bind _ _ given λ client c.
      Total-bind _ _ (identify-Total client c _)
        λ log done. rw none_declared (Total-pure _ (_, refl))

Success-ok : (r : Result (Unit {0})) → Success (λ done. Unit {0}) r → r ≡ ok tt
Success-ok (ok tt) h = refl
Success-ok (raised e) h = absurd h

-- A run that went through the nodes and ended with an empty log.
record IsPath {W : Type 0} (path : List String) (r : Run W) : Type 0 where
  ending : r.ending ≡ Ending.completed
  names : map (λ update. name_of update.0) r.updates ≡ path
  log : r.state.attempt_log ≡ some []

module _ {W : Type 0} (host : Host W) where
  settle-IsPath :
      (Q : AgentState → Type 0) (rest : Target → AgentState → W → Run W) (at : Node)
      (s : AgentState) (names : List String) (r : Result AgentState) (w : W)
      → Success Q r
      → ((u : AgentState)
          → Q u
          → (v : W) → IsPath names (rest (edge_of at (overlay s u)) (overlay s u) v))
      → IsPath (name_of at ∷ names) (settle (build_graph host) rest at s r w)
  unfolding build_graph
  settle-IsPath Q rest at s names (raised e) w h k = absurd h
  settle-IsPath Q rest at s names (ok u) w h k =
      let p = k u h w in
      record { ending = p.ending; names = ap (λ l. name_of at ∷ l) p.names; log = p.log }

  -- One superstep.
  step-IsPath :
      (Q : AgentState → Type 0) (limit : ℕ) (at : Node) (s : AgentState) (names : List String)
      → Total Q (node_of host at s)
      → ((u : AgentState)
          → Q u
          → (v : W)
          → IsPath names
              (Engine.run (build_graph host) limit (edge_of at (overlay s u)) (overlay s u) v))
      → (w : W)
      → IsPath (name_of at ∷ names) (Engine.run (build_graph host) (suc limit) (to at) s w)
  unfolding Engine.run build_graph
  step-IsPath Q limit at s names total k w =
      settle-IsPath Q (Engine.run (build_graph host) limit) at s names _ _ (total.at w) k

  -- One whose update is known.
  known-IsPath :
      (limit : ℕ) (at : Node) (s : AgentState) (names : List String) (u : AgentState)
      → Total (λ v. v ≡ u) (node_of host at s)
      → ((v : W)
          → IsPath names
              (Engine.run (build_graph host) limit (edge_of at (overlay s u)) (overlay s u) v))
      → (w : W)
      → IsPath (name_of at ∷ names) (Engine.run (build_graph host) (suc limit) (to at) s w)
  known-IsPath limit at s names u total k =
      step-IsPath (λ v. v ≡ u) limit at s names total
        λ v e w.
          subst
            (λ x.
              IsPath names
                (Engine.run (build_graph host) limit (edge_of at (overlay s x)) (overlay s x) w))
            (sym e) (k w)

  halt-IsPath :
      (limit : ℕ) (s : AgentState) (w : W)
      → s.attempt_log ≡ some []
      → IsPath [] (Engine.run (build_graph host) limit halt s w)
  unfolding Engine.run
  halt-IsPath zero s w h = record { ending = refl; names = refl; log = h }
  halt-IsPath (suc limit) s w h = record { ending = refl; names = refl; log = h }

-- The state before each node of the way.
abbrev begun : AgentState
begun = record no_update { active_ticket = some stub_ticket }

abbrev executed : List String → AgentState
executed log = record begun { attempt_log = some log; ticket_status = some local_pass }

abbrev validated : List String → AgentState
validated log = record (executed log) { last_validation_passed = some true }

module _ {W : Type 0} (host : Host W) (given : Total IsMockClient host.get_runtime_client) where
  from_dispatch :
      (s : AgentState) (w : W)
      → s.attempt_log ≡ some []
      → edge_of dispatch s ≡ halt
      → IsPath ("dispatch" ∷ []) (Engine.run (build_graph host) 18 (to dispatch) s w)
  unfolding node_of name_of
  from_dispatch s w e h =
      known-IsPath host 17 dispatch s [] no_update (Total-pure _ refl)
        (λ v. rw h (halt-IsPath host 17 s v e)) w

  from_advance :
      (log log' : List String) (w : W)
      → IsPath ("advance" ∷ "dispatch" ∷ []) (
          Engine.run
            (build_graph host)
            19
            (to advance)
            (record (validated log) { attempt_log = some log' })
            w)
  unfolding edge_of node_of name_of advance_node
  from_advance log log' =
      known-IsPath host 18 advance _ _ _ (Total-pure _ refl) λ v. from_dispatch _ v refl refl

  from_validator :
      (log : List String) (w : W)
      → IsPath
          ("validator" ∷ "oversight_git" ∷ "advance" ∷ "dispatch" ∷ [])
          (Engine.run (build_graph host) 21 (to validator) (executed log) w)
  unfolding edge_of node_of name_of
  from_validator log =
      known-IsPath host 20 validator (executed log) _ _ (validator-Passes host given _) (
        step-IsPath host (IsAppended host given) 19 oversight_git (validated log) _
          (oversight-IsAppended host given _ refl)
          λ u l v.
            subst
              (λ x. IsPath ("advance" ∷ "dispatch" ∷ []) (
                Engine.run (build_graph host) 19 (edge_of oversight_git (overlay (validated log) x))
                  (overlay (validated log) x) v))
              (sym l.1) (from_advance log l.0 v))

  run-IsPath :
      (w : W)
      → IsPath
          ("analyzer" ∷ "architect" ∷ "dispatch" ∷ "executor" ∷ "validator" ∷ "oversight_git"
            ∷ "advance" ∷ "dispatch" ∷ [])
          (Engine.run (build_graph host) 25 (to analyzer) no_update w)
  unfolding edge_of node_of name_of analyzer_node architect_node when_both advance_node
  run-IsPath = known-IsPath host 24 analyzer no_update _ begun (Total-pure _ refl) (
      known-IsPath host 23 architect begun _ no_update (Total-pure _ refl) (
        known-IsPath host 22 dispatch begun _ no_update (Total-pure _ refl) (
          step-IsPath host (IsLogged host given) 21 executor begun _
            (executor-IsLogged host given _)
            λ u l v.
              subst
                (λ x.
                  IsPath ("validator" ∷ "oversight_git" ∷ "advance" ∷ "dispatch" ∷ [])
                    (Engine.run (build_graph host) 21 (to validator) (overlay begun x) v))
                (sym l.1) (from_validator l.0 v))))

chunks-IsPath :
    {W : Type 0} {names : List String} (r : Run W)
    → IsPath names r
    → Success (λ l. l ≡ names) (chunks r r.ending)
chunks-IsPath {names = names} r p =
    subst (λ e. Success (λ l. l ≡ names) (chunks r e)) (sym p.ending) p.names

invoked-IsPath :
    {W : Type 0} {names : List String} (r : Run W)
    → IsPath names r
    → Success (λ s. s.attempt_log ≡ some []) (invoked r.state r.ending)
invoked-IsPath r p =
    subst (λ e. Success (λ s. s.attempt_log ≡ some []) (invoked r.state e)) (sym p.ending) p.log

module _ {W : Type 0} (engine : Engine W) (lawful : IsLanggraph engine) (host : Host W)
    (given : Total IsMockClient host.get_runtime_client) where
  abbrev path : W → Run W
  path w = Engine.run (build_graph host) 25 (to analyzer) no_update w

  stream-path : (w : W) → engine.stream (build_graph host) 25 (to analyzer) no_update w ≡ path w
  stream-path w = stream-run engine lawful (build_graph host) 25 (to analyzer) no_update w

  astream-Total :
      Total (λ names. names ++ ("END" ∷ []) ≡ expected_transitions) (astream engine host no_update)
  unfolding astream build_graph
  astream-Total = record {
    at = λ w. rw (stream-path w) (
        at_weaken (chunks (path w) (path w).ending) (λ names e. ap (λ l. l ++ ("END" ∷ [])) e)
          (chunks-IsPath (path w) (run-IsPath host given w)));
  }

  ainvoke-Total : Total (λ s. s.attempt_log ≡ some []) (ainvoke engine host no_update)
  unfolding ainvoke build_graph
  ainvoke-Total = record {
    at = λ w. rw (stream-path w) (invoked-IsPath (path w) (run-IsPath host given w));
  }

  main-Total : Total (λ done. Unit {0}) (main engine host)
  unfolding main same_texts
  main-Total = Total-bind _ _ astream-Total λ names e.
      Total-bind _ _ (require-Total (rw e refl))
        λ done passed. Total-bind _ _ ainvoke-Total λ s e'. require-Total (rw e' refl)

  -- Over a runtime whose client is the mock and whose actions do not raise, and with any engine that
  -- keeps the laws of langgraph, the script does not raise: a run from the empty state visits exactly the
  -- nodes that the script expects, in that order, and ends with an empty log of attempts.
  pub main-ok : (w : W) → (main engine host w).0 ≡ ok tt
  main-ok w = Success-ok _ (main-Total.at w)
