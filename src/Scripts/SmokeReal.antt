-- ===== src/Scripts/SmokeReal.antt =====
-- scripts/smoke_e2e_real.py
use syndicate.Prelude.{
  ℕ, suc, String, Bool, true, false, not, ◌||◌, Option, none, some, List, [], ◌∷◌, ◌++◌, map, leb,
  or_nil, truthy_text, if◌then◌else◌,
}
use syndicate.Exec.{Exec, pure, when◌perform◌otherwise◌, ◌>>=◌, ◌>>◌}
use syndicate.State.{AgentState, Ticket, empty_ticket, TicketStatus, is_done, is_escalated}
use syndicate.State.Update.{no_update}
use syndicate.Host.{Host}
use syndicate.Engine.{Engine}
use syndicate.Server.Attempts.{contains}
use syndicate.Scripts.Checks.{require}
use syndicate.Scripts.RunRealIssue.{Environ, without_key, ainvoke}

-- `_WORKSPACE_DIR`
abbrev pub smoke_workspace : Environ → String
smoke_workspace environ = elim (environ "SYNDICATE_SMOKE_WORKSPACE") [
  | none ↦ "/home/openhands/syndicate-workspace/sample_project"
  | some path ↦ path
]

abbrev pub trivial_ticket : String → Ticket
trivial_ticket workspace = record empty_ticket {
  id = some "SMOKE-TRIVIAL";
  title = some "Add a trivially passing no-op change";
  intent = some "smoke: trivial resolve";
  verification_command = some "python3 -m pytest -q";
  workspace_dir = some workspace;
  files_changed = some [];
}

abbrev pub seeded_failure_ticket : String → Ticket
seeded_failure_ticket workspace = record empty_ticket {
  id = some "SMOKE-SEEDED-FAILURE";
  title = some "Fix the intentionally broken calc.add() implementation";
  intent = some "smoke: seeded-failure self-heal";
  verification_command = some "python3 -m pytest -q";
  workspace_dir = some workspace;
  files_changed = some ("calc.py" ∷ []);
}

-- `sum(1 for line in lines if 'strike=' in line)`
unfoldable pub count_lines : List String → ℕ
count_lines [] = 0
count_lines (line ∷ lines) =
    let rest = count_lines lines in if contains "strike=" line then suc rest else rest

unfoldable pub count_strikes : AgentState → ℕ
unfolding count_lines
count_strikes s =
    count_lines
      (or_nil s.attempt_log ++ map (λ decision. decision.summary) (or_nil s.decision_ledger))

-- `status == TicketStatus.LOCAL_PASS`
abbrev pub is_local_pass : Option TicketStatus → Bool
is_local_pass (some TicketStatus.local_pass) = true
is_local_pass _ = false

module _ {W : Type 0} (engine : Engine W) (host : Host W) where
  unfoldable pub run_ticket : Ticket → Exec W AgentState
  run_ticket ticket = ainvoke engine host (record no_update { active_ticket = some ticket })

  unfoldable pub main : String → Exec W (Unit {0})
  main workspace = do
    trivial_final ← run_ticket (trivial_ticket workspace)
    require (is_done trivial_final.ticket_status || is_local_pass trivial_final.ticket_status)
    seeded_final ← run_ticket (seeded_failure_ticket workspace)
    let strikes_seen = count_strikes seeded_final
    require (leb 1 strikes_seen)
    require (leb strikes_seen 3)
    require (
        is_done seeded_final.ticket_status
        || (is_local_pass seeded_final.ticket_status || is_escalated seeded_final.ticket_status))

-- The process, and the code that it exits with. `hosts` is what the modules of the program see of an
-- environment when they are imported.
unfoldable pub script : {W : Type 0} → Engine W → (Environ → Host W) → Environ → Exec W ℕ
script engine hosts environ =
    when not (truthy_text (environ "ANTHROPIC_API_KEY"))
    perform pure 2
    otherwise (main engine (hosts (without_key "SYNDICATE_MOCK_CLIENT" environ))
          (smoke_workspace environ)
        >> pure 0)
