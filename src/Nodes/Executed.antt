-- ===== src/Nodes/Executed.antt =====
-- What `validator_node` of syndicate/nodes.py has run when it reports that a ticket passed.
use mathlib.Core.Logic.{inl, inr}
use mathlib.Core.Bool.{false≢true}
use syndicate.Prelude.{
  ◌≡◌, ◌⊎◌, sym, ap, ◌∙◌, String, Bool, Bool-cases, true, false, some, is_zero, or_text,
  truthy_flag,
}
use syndicate.Exec.{Exec, Result, ok, when◌perform◌otherwise◌}
use syndicate.Exec.Invert.{>>=-eq-ok, pure-eq-ok}
use syndicate.State.{AgentState}
use syndicate.Runtime.Base.{ActionResult, RuntimeClient}
use syndicate.Host.{Host}
use syndicate.Nodes.Config.{default_verification_command, validator_timeout}
use syndicate.Nodes.Executor.{ticket_of, workspace_of}
use syndicate.Nodes.Validator.{validator_node}

abbrev pub command_of : AgentState → String
command_of s = or_text (ticket_of s).verification_command default_verification_command

module _ {W : Type 0} (host : Host W) where
  -- The command of the ticket was run in its workspace, with the validator's timeout, and it exited
  -- with 0, and nothing else was done after it; or the sandbox is the mock.
  pub record IsExecuted (s : AgentState) (w w' : W) : Type 0 where
    pub client : RuntimeClient W
    pub before : W
    pub got : host.get_runtime_client w ≡ (ok client, before)
    pub outcome :
        (client.is_mock ≡ true)
        ⊎ ((result : ActionResult) × (client.run_action
                (command_of s)
                (some (workspace_of (ticket_of s)))
                (some validator_timeout)
                before
              ≡ (ok result, w'))
            × (is_zero result.exit_code ≡ true))

  otherwise-eq :
      {A : Type 0} (b : Bool) (m n : Exec W A) (w : W) {r : Result A × W}
      → b ≡ false
      → (when b perform m otherwise n) w ≡ r
      → n w ≡ r
  unfolding when◌perform◌otherwise◌
  otherwise-eq true m n w e h = absurd (false≢true (sym e))
  otherwise-eq false m n w e h = h

  first-eq :
      {A : Type 0} (b : Bool) (m n : Exec W A) (w : W) {r : Result A × W}
      → b ≡ true
      → (when b perform m otherwise n) w ≡ r
      → m w ≡ r
  unfolding when◌perform◌otherwise◌
  first-eq true m n w e h = h
  first-eq false m n w e h = absurd (false≢true e)

  pub validator-IsExecuted :
      (s u : AgentState) (w w' : W)
      → validator_node host s w ≡ (ok u, w')
      → truthy_flag u.last_validation_passed ≡ true
      → IsExecuted s w w'
  unfolding validator_node
  validator-IsExecuted s u w w' e passed =
      let (client, before, got, rest) = >>=-eq-ok host.get_runtime_client _ w e in
      record {
        client = client;
        before = before;
        got = got;
        outcome = elim (Bool-cases client.is_mock) [
          | inl mock ↦ inl mock
          | inr real ↦
              let (result, after, acted, chosen) =
                >>=-eq-ok (client.run_action _ _ _) _ before
                  (otherwise-eq client.is_mock _ _ before real rest) in
              elim (Bool-cases (is_zero result.exit_code)) [
                | inl fine ↦
                    let (made, kept) =
                      pure-eq-ok _ after
                        (first-eq (is_zero result.exit_code) _ _ after fine chosen) in
                    inr (result, acted ∙ ap (λ v. (ok result, v)) kept, fine)
                | inr bad ↦
                    let (made, kept) =
                      pure-eq-ok _ after
                        (otherwise-eq (is_zero result.exit_code) _ _ after bad chosen) in
                    absurd (
                      false≢true (
                        ap (λ (v : AgentState). truthy_flag v.last_validation_passed) made
                        ∙ passed))
              ]
        ];
      }

  -- The command of the ticket was run in its workspace, with the validator's timeout, in a sandbox that
  -- is not the mock, and it did not exit with 0, and nothing else was done after it.
  pub record IsRefuted (s : AgentState) (w w' : W) : Type 0 where
    pub client : RuntimeClient W
    pub before : W
    pub got : host.get_runtime_client w ≡ (ok client, before)
    pub real : client.is_mock ≡ false
    pub result : ActionResult
    pub acted :
        client.run_action
          (command_of s)
          (some (workspace_of (ticket_of s)))
          (some validator_timeout)
          before
        ≡ (ok result, w')
    pub failed : is_zero result.exit_code ≡ false

  abbrev passes : AgentState → Bool
  passes u = truthy_flag u.last_validation_passed

  pub validator-IsRefuted :
      (s u : AgentState) (w w' : W)
      → validator_node host s w ≡ (ok u, w')
      → truthy_flag u.last_validation_passed ≡ false
      → IsRefuted s w w'
  unfolding validator_node
  validator-IsRefuted s u w w' e failed =
      let (client, before, got, rest) = >>=-eq-ok host.get_runtime_client _ w e in
      elim (Bool-cases client.is_mock) [
        | inl mock ↦
            let (made, kept) = pure-eq-ok _ before (first-eq client.is_mock _ _ before mock rest) in
            absurd (false≢true (sym (ap passes made ∙ failed)))
        | inr real ↦
            let (result, after, acted, chosen) =
              >>=-eq-ok (client.run_action _ _ _) _ before
                (otherwise-eq client.is_mock _ _ before real rest) in
            elim (Bool-cases (is_zero result.exit_code)) [
              | inl fine ↦
                  let (made, kept) =
                    pure-eq-ok _ after
                      (first-eq (is_zero result.exit_code) _ _ after fine chosen) in
                  absurd (false≢true (sym (ap passes made ∙ failed)))
              | inr bad ↦
                  let (made, kept) =
                    pure-eq-ok _ after
                      (otherwise-eq (is_zero result.exit_code) _ _ after bad chosen) in
                  record {
                    client = client;
                    before = before;
                    got = got;
                    real = real;
                    result = result;
                    acted = acted ∙ ap (λ v. (ok result, v)) kept;
                    failed = bad;
                  }
            ]
      ]
