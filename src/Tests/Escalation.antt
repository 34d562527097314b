-- ===== src/Tests/Escalation.antt =====
-- The scripts about escalation, run: the one about the budget wants a budget of one.
use syndicate.Prelude.{ℕ, pos, ◌≡◌, refl, join}
use syndicate.Exec.{ok, raised, ◌>>=◌}
use syndicate.Server.Attempts.{contains}
use syndicate.Graph.{dispatch_router}
use syndicate.Nodes.Ledger.{escalate_node, advance_node}
use syndicate.Scripts.Checks.{assertion_error, require}
use syndicate.Scripts.Escalation.{verify_escalation, verify_budget}

verify_escalation_runs : verify_escalation {W = ℕ} (pos 3) 0 ≡ (ok tt, 0)
unfolding verify_escalation escalate_node advance_node dispatch_router contains require join ◌>>=◌
verify_escalation_runs = refl

verify_budget_runs : verify_budget {W = ℕ} (pos 1) 0 ≡ (ok tt, 0)
unfolding verify_budget escalate_node dispatch_router require ◌>>=◌
verify_budget_runs = refl

verify_budget_of_two : verify_budget {W = ℕ} (pos 2) 0 ≡ (raised assertion_error, 0)
unfolding verify_budget escalate_node dispatch_router require ◌>>=◌
verify_budget_of_two = refl
