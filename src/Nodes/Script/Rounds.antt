-- ===== src/Nodes/Script/Rounds.antt =====
-- The executor of syndicate/nodes.py with a script in place of the model.
use mathlib.Core.Option
use syndicate.Prelude.{
  ℕ, zero, suc, ◌+◌, ◌-◌, String, ◌<>◌, Option, none, some, List, [], ◌∷◌, ◌++◌, str, str_int,
  is_zero, or_nil, or_zero,
}
use syndicate.Exec.{Exec, Result, pure, when◌perform◌otherwise◌, ◌>>=◌}
use syndicate.Exec.Beside.{on_left}
use syndicate.State.{AgentState, Ticket, local_pass, escalated}
use syndicate.State.Update.{no_update}
use syndicate.Runtime.Base.{RuntimeClient}
use syndicate.Host.{Host}
use syndicate.StubLlm.{StubTurn}
use syndicate.Nodes.Config.{max_tool_calls, max_strikes, dummy_actions}
use syndicate.Nodes.Executor.{ticket_of, workspace_of, run_fast_checks, run_dummies}
use syndicate.Nodes.Script.{play}

-- For each attempt, what it was told of the one before, and how its conversation ended.
abbrev pub Trace : Type 0
Trace = List (Option String × Result String)

module _ {W : Type 0} (host : Host W) (t : StubTurn) (ts : List StubTurn) where
  module _ (client : RuntimeClient W) (ticket : Ticket) where
    -- The script from its start, noted behind the attempts before.
    unfoldable pub attempt : Option String → Exec (W × Trace) String
    attempt feedback (w, trace) =
        let played = play host client (workspace_of ticket) max_tool_calls t ts w in
        (played.0, (played.1, trace ++ ((feedback, played.0) ∷ [])))

    -- The attempts that are left.
    unfoldable pub rounds : ℕ → ℕ → List String → Option String → Exec (W × Trace) AgentState
    rounds zero strike log feedback = pure (record no_update {
      attempt_log = some log;
      ticket_status = some escalated;
      strike_count = some strike;
    })
    rounds (suc left) before log feedback = do
      let strike = before + 1
      summary ← attempt feedback
      check ← on_left (run_fast_checks client (workspace_of ticket))
      let log' =
          log
          ++ (("strike=" <> str strike <> " summary=" <> host.repr summary)
              ∷ ("strike="
                  <> str strike
                  <> " fast_check exit_code="
                  <> str_int check.exit_code
                  <> " output="
                  <> host.repr check.output)
              ∷ [])
      when is_zero check.exit_code
          perform pure (record no_update {
            attempt_log = some log';
            ticket_status = some local_pass;
            strike_count = some strike;
            validation_diagnosis = some none;
          })
          otherwise rounds left strike log' (some check.output)

  -- The executor with the script in place of the model.
  unfoldable pub replay : AgentState → Exec (W × Trace) AgentState
  replay s = do
    client ← on_left host.get_runtime_client
    let log = or_nil s.attempt_log
    let strike = or_zero s.strike_count
    when client.is_mock
        perform on_left (run_dummies host client log dummy_actions)
        otherwise rounds client (ticket_of s) (max_strikes - strike) strike log
            (Option.get_or s.validation_diagnosis none)
