-- ===== src/Scripts/ValidationGit/Passed.antt =====
-- What a run of scripts/verify_step6_validation_git.py that passes has seen.
use mathlib.Core.Bool.{false≢true}
use syndicate.Prelude.{
  ℕ, List, ◌≡◌, refl, ap, String, ◌<>◌, Bool, true, false, Option, none, some, truthy_flag, given,
  ◌==◌,
}
use syndicate.Exec.{Exec, Result, ok, raised, ◌>>=◌, continue, trying}
use syndicate.Exec.Yields.{Returned}
use syndicate.Exec.Invert.{>>=-eq-ok, success_lem}
use syndicate.Runtime.Base.{ActionResult, RuntimeClient}
use syndicate.Host.{Host}
use syndicate.State.{AgentState}
use syndicate.Nodes.Validator.{validator_node}
use syndicate.Nodes.Executed.{IsExecuted, IsRefuted, validator-IsExecuted, validator-IsRefuted}
use syndicate.Scripts.Checks.{require-eq-ok}
use syndicate.Scripts.FileOps.{finally}
use syndicate.Scripts.ValidationGit.{
  seed_workspace, violations, scenario_c, passing, failing, is_true, is_false, scenario_a,
  scenario_b, scenarios, verify_step6,
}

true-truthy : (b : Option Bool) → is_true (given b none) ≡ true → truthy_flag b ≡ true
true-truthy none e = e
true-truthy (some b) e = e

false-truthy : (b : Option Bool) → is_false (given b none) ≡ true → truthy_flag b ≡ false
false-truthy none e = refl
false-truthy (some true) e = absurd (false≢true e)
false-truthy (some false) e = refl

module _ {W A : Type 0} where
  at_finally :
      (r : Result A) (last : Result (Unit {0})) (v : W) {a : A} {w' : W}
      → continue last (λ done u. (r, u)) v ≡ (ok a, w')
      → r ≡ ok a
  at_finally r (ok done) v h = ap (λ (p : Result A × W). p.0) h
  at_finally r (raised x) v h = absurd (cc (ap (λ (p : Result A × W). p.0) h))

  finally-eq-ok :
      (m : Exec W A) (last : Exec W (Unit {0})) (w : W) {a : A} {w' : W}
      → finally m last w ≡ (ok a, w')
      → m w ≡ (ok a, (m w).1)
  unfolding finally trying ◌>>=◌
  finally-eq-ok m last w h =
      ap (λ r. (r, (m w).1)) (at_finally (m w).0 (last (m w).1).0 (last (m w).1).1 h)

module _ {W : Type 0} (host : Host W) (workspace_dir : String) (client : RuntimeClient W) where
  -- The first scenario from one world to another: its first step is a validation with exit code 0.
  pub record IsAccepted (before after : W) : Type 0 where
    pub checked : W
    pub update : AgentState
    pub validated : validator_node host (passing workspace_dir) before ≡ (ok update, checked)
    pub executed : IsExecuted host (passing workspace_dir) before checked
    pub returned : scenario_a host workspace_dir client before ≡ (ok tt, after)

  -- The second scenario: behind the edit that breaks the file and a look at the log, a validation with
  -- another exit code.
  pub record IsRejected (before after : W) : Type 0 where
    pub broken : W
    pub edited :
        client.edit_file (workspace_dir <> "/calc.py") "return a + b" "return a - b" before
        ≡ (ok tt, broken)
    pub log : ActionResult
    pub asked : W
    pub listed :
        client.run_action "git log --oneline" (some workspace_dir) none broken ≡ (ok log, asked)
    pub checked : W
    pub update : AgentState
    pub validated : validator_node host (failing workspace_dir) asked ≡ (ok update, checked)
    pub refuted : IsRefuted host (failing workspace_dir) asked checked
    pub returned : scenario_b host workspace_dir client before ≡ (ok tt, after)

  scenario_a-IsAccepted :
      (w w' : W) → scenario_a host workspace_dir client w ≡ (ok tt, w') → IsAccepted w w'
  unfolding scenario_a
  scenario_a-IsAccepted w w' h =
      let (u, w₁, ran, h₁) = >>=-eq-ok _ _ w h in
      let (done, w₂, passed, h₂) = >>=-eq-ok _ _ w₁ h₁ in
      record {
        checked = w₁;
        update = u;
        validated = ran;
        executed =
            validator-IsExecuted host (passing workspace_dir) u w w₁ ran
              (true-truthy u.last_validation_passed (require-eq-ok _ w₁ passed).0);
        returned = h;
      }

  scenario_b-IsRejected :
      (w w' : W) → scenario_b host workspace_dir client w ≡ (ok tt, w') → IsRejected w w'
  unfolding scenario_b
  scenario_b-IsRejected w w' h =
      let (done, w₁, edited, h₁) = >>=-eq-ok _ _ w h in
      let (log, w₂, listed, h₂) = >>=-eq-ok _ _ w₁ h₁ in
      let (u, w₃, ran, h₃) = >>=-eq-ok _ _ w₂ h₂ in
      let (done', w₄, failed, h₄) = >>=-eq-ok _ _ w₃ h₃ in
      record {
        broken = w₁;
        edited = edited;
        log = log;
        asked = w₂;
        listed = listed;
        checked = w₃;
        update = u;
        validated = ran;
        refuted =
            validator-IsRefuted host (failing workspace_dir) u w₂ w₃ ran
              (false-truthy u.last_validation_passed (require-eq-ok _ w₃ failed).0);
        returned = h;
      }

module _ {W : Type 0} (host : Host W) (workspace_dir : String) (finditer : String → String → ℕ)
    (sources : List String) where
  -- What the script has done from a world on: it was given a client, it seeded the workspace with it,
  -- and ran the two scenarios one after the other, and nothing forbidden was found.
  pub record IsVerified (w : W) : Type 0 where
    pub client : RuntimeClient W
    pub opened : W
    pub got : host.get_runtime_client w ≡ (ok client, opened)
    pub seeded : W
    pub prepared : seed_workspace host workspace_dir client opened ≡ (ok tt, seeded)
    pub between : W
    pub accepted : IsAccepted host workspace_dir client seeded between
    pub after : W
    pub rejected : IsRejected host workspace_dir client between after
    pub allowed : (violations finditer sources == 0) ≡ true

  verify_step6-eq-ok :
      (aclose : Exec W (Unit {0})) (w : W) (done : Unit {0}) (w' : W)
      → verify_step6 host workspace_dir finditer sources aclose w ≡ (ok done, w')
      → IsVerified w
  unfolding verify_step6 scenarios scenario_c
  verify_step6-eq-ok aclose w done w' h =
      let (client, w₁, got, h₁) = >>=-eq-ok _ _ w h in
      let (done₂, w₂, prepared, h₂) = >>=-eq-ok _ _ w₁ (finally-eq-ok _ aclose w₁ h₁) in
      let (done₃, w₃, first, h₃) = >>=-eq-ok _ _ w₂ h₂ in
      let (done₄, w₄, second, h₄) = >>=-eq-ok _ _ w₃ h₃ in
      record {
        client = client;
        opened = w₁;
        got = got;
        seeded = w₂;
        prepared = prepared;
        between = w₃;
        accepted = scenario_a-IsAccepted host workspace_dir client w₂ w₃ first;
        after = w₄;
        rejected = scenario_b-IsRejected host workspace_dir client w₃ w₄ second;
        allowed = (require-eq-ok _ w₄ h₄).0;
      }

  -- Whatever the sandbox and the world that the script starts in: if it returns then it ran
  -- `validator_node` twice on its ticket: in the world that the seeding left, where the verification
  -- command was run in the workspace and exited with 0, or the sandbox was the mock; and, after the first
  -- scenario and the edit that breaks the file, in the world that these left, where the sandbox was not
  -- the mock and the same command was run and did not exit with 0; and no forbidden pattern was found.
  pub verify_step6-IsVerified :
      (aclose : Exec W (Unit {0})) (w : W)
      → Returned
          (λ done. IsVerified w)
          (verify_step6 host workspace_dir finditer sources aclose w).0
  verify_step6-IsVerified aclose w =
      success_lem (λ v. IsVerified w) (verify_step6 host workspace_dir finditer sources aclose) w
        (verify_step6-eq-ok aclose w)
