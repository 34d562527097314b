-- ===== src/Scripts/ExecutorLoop/Scenarios.antt =====
-- The scenarios of scripts/verify_executor_loop_stub.py.
use syndicate.Prelude.{
  ℕ, suc, ◌+◌, String, ◌<>◌, Bool, true, false, not, ◌&&◌, ◌||◌, Option, none, some, List, [], ◌∷◌,
  is_zero, length, str_eq, or_nil, ◌==◌, is_empty, truthy_flag, if◌then◌else◌,
}
use syndicate.Exec.{
  Exec, Result, ok, raised, pure, raise, when◌perform◌otherwise◌, ◌>>=◌, ◌>>◌, trying,
}
use syndicate.Exec.Beside.{on_left}
use syndicate.State.{AgentState, DecisionSummary, Ticket, is_done, is_escalated}
use syndicate.State.Update.{no_update, overlay}
use syndicate.Runtime.Base.{RuntimeClient}
use syndicate.Llm.{Message, user, assistant, tool_results, ToolResult, Request}
use syndicate.Host.{Host}
use syndicate.StubLlm.{
  StubTurn, StubAnthropicClient, complete_turn, set_stub_script, get_call_history,
}
use syndicate.StubLlm.Shared.{Shared, stub_host}
use syndicate.Nodes.Config.{max_strikes, max_tool_calls}
use syndicate.Nodes.Executor.{executor_node}
use syndicate.Nodes.Validator.{validator_node}
use syndicate.Nodes.Oversight.{oversight_git_node}
use syndicate.Nodes.Ledger.{escalate_node, advance_node}
use syndicate.Graph.{Target, to, oversight_git, escalate, validator_router, dispatch_router}
use syndicate.Server.Attempts.{contains}
use syndicate.Scripts.Checks.{require}
use syndicate.Scripts.SmokeReal.{is_local_pass}
use syndicate.Scripts.Escalation.{is_halt, has_count, is_empty_log}
use syndicate.Scripts.ExecutorLoop.{
  calc_buggy, seed_calc_project, make_ticket, bash_call, view_call, str_replace_call, create_call,
  single_turn,
}

-- `route == 'oversight_git'` and `route == 'escalate'`
abbrev pub is_oversight : Target → Bool
is_oversight (to oversight_git) = true
is_oversight _ = false

abbrev pub is_escalate : Target → Bool
is_escalate (to escalate) = true
is_escalate _ = false

-- `messages[-1]['content'][0]`, if the last message has results.
abbrev pub last_result : List Message → Option ToolResult
last_result [] = none
last_result (user t ∷ []) = none
last_result (assistant blocks ∷ []) = none
last_result (tool_results [] ∷ []) = none
last_result (tool_results (r ∷ rs) ∷ []) = some r
last_result (m ∷ n ∷ ms) = last_result (n ∷ ms)

abbrev pub last_count : List Message → ℕ
last_count [] = 0
last_count (user t ∷ []) = 0
last_count (assistant blocks ∷ []) = 0
last_count (tool_results rs ∷ []) = length rs
last_count (m ∷ n ∷ ms) = last_count (n ∷ ms)

-- A result that is not an error, and satisfies a test.
abbrev pub is_result : (String → Bool) → Option ToolResult → Bool
is_result test none = false
is_result test (some r) = not r.is_error && test r.content

-- `calls[i]['messages'][-1]['content'][0]` for `i` of 1, 2 and 3, when there are four calls.
unfoldable pub are_results :
    (String → Bool) → (String → Bool) → (String → Bool) → List Request → Bool
are_results p q r (a ∷ b ∷ c ∷ d ∷ []) =
    is_result p (last_result b.messages)
    && (is_result q (last_result c.messages) && is_result r (last_result d.messages))
are_results p q r _ = false

-- `len(history) == 1`, and a test of the one client's calls.
abbrev pub only_client : (List Request → Bool) → List StubAnthropicClient → Bool
only_client test (c ∷ []) = test c.calls_seen
only_client test _ = false

-- The lines of a log that pass a test.
unfoldable pub count_if : (String → Bool) → List String → ℕ
count_if test [] = 0
count_if test (line ∷ lines) =
    let rest = count_if test lines in if test line then suc rest else rest

-- `[c['messages_len'] for c in calls] == [1 + 2 * i for i in range(len(calls))]`, from `n` on.
unfoldable pub grows_from : ℕ → List Request → Bool
grows_from n [] = true
grows_from n (request ∷ requests) = (length request.messages == n) && grows_from (n + 2) requests

-- Each call of a list has one fresh result in its last message.
unfoldable pub each_has_one : List Request → Bool
each_has_one [] = true
each_has_one (request ∷ requests) = (last_count request.messages == 1) && each_has_one requests

abbrev pub behind_first : List Request → List Request
behind_first [] = []
behind_first (request ∷ requests) = requests

-- `len(attempt.calls_seen) == _MAX_TOOL_CALLS` for each attempt
unfoldable pub each_capped : List StubAnthropicClient → Bool
each_capped [] = true
each_capped (c ∷ cs) = (length c.calls_seen == max_tool_calls) && each_capped cs

-- The opening message of an attempt.
abbrev pub opening_text : StubAnthropicClient → Option Message → String
opening_text c none = ""
opening_text c (some (user text)) = text
opening_text c (some (assistant blocks)) = ""
opening_text c (some (tool_results rs)) = ""

abbrev pub opening_of : StubAnthropicClient → String
opening_of c = elim c.calls_seen [
  | [] ↦ ""
  | request ∷ requests ↦ elim request.messages [ [] ↦ "" | m ∷ ms ↦ opening_text c (some m) ]
]

abbrev pub feedback_mark : String
feedback_mark = "The previous attempt failed its checks:"

-- No feedback in the first of three attempts, and feedback in the others.
unfoldable pub is_threaded : List StubAnthropicClient → Bool
is_threaded (a ∷ b ∷ c ∷ []) =
    not (contains feedback_mark (opening_of a))
    && (contains feedback_mark (opening_of b) && contains feedback_mark (opening_of c))
is_threaded _ = false

-- The state that a scenario starts from.
abbrev pub starting : Ticket → AgentState
starting ticket = record no_update { active_ticket = some ticket }

module _ {W : Type 0} where
  -- `set_stub_script` and `get_call_history` change and read what is beside the sandbox.
  abbrev pub set_script : String → List StubTurn → Exec (Shared W) (Unit {0})
  set_script ticket_id script (w, s) = (ok tt, (w, set_stub_script ticket_id script s))

  abbrev pub call_history : String → Exec (Shared W) (List StubAnthropicClient)
  call_history ticket_id (w, s) = (ok (get_call_history ticket_id s), (w, s))

  -- `state.update(await node(state))`
  abbrev pub updated :
      (AgentState → Exec (Shared W) AgentState) → AgentState → Exec (Shared W) AgentState
  updated node s = do u ← node s; pure (overlay s u)

module _ {W : Type 0} (host : Host W) (base_workspace : String) (elapsed_ok : Bool)
    (client : RuntimeClient W) where
  unfoldable pub scenario_cap : Exec (Shared W) (Unit {0})
  scenario_cap = do
    let workspace_dir = base_workspace <> "/cap"
    setup ← on_left (client.run_action ("mkdir -p " <> workspace_dir) none none)
    require (is_zero setup.exit_code)
    set_script "STUB-CAP" (single_turn (bash_call "true") ∷ [])
    s ← updated (executor_node (stub_host host)) (starting (make_ticket "STUB-CAP" workspace_dir))
    require elapsed_ok
    require (is_escalated s.ticket_status)
    require (has_count s.strike_count max_strikes)
    attempts ← call_history "STUB-CAP"
    require (length attempts == max_strikes)
    require (each_capped attempts)
    require (
        count_if (contains "tool call cap reached without a final answer") (or_nil s.attempt_log)
        == max_strikes)
    s' ← updated (validator_node (stub_host host)) s
    require (is_escalate (validator_router s'))
    let escalated_state = overlay s' (escalate_node host.max_escalations s')
    require (is_halt (dispatch_router (overlay escalated_state (advance_node escalated_state))))

  unfoldable pub scenario_context : Exec (Shared W) (Unit {0})
  scenario_context = do
    let workspace_dir = base_workspace <> "/context"
    let calc_path = workspace_dir <> "/calc.py"
    on_left (seed_calc_project client workspace_dir)
    set_script "STUB-CONTEXT" (
        single_turn (view_call calc_path)
        ∷ single_turn (str_replace_call calc_path "return a - b" "return a + b")
        ∷ single_turn (bash_call "echo checkpoint-1")
        ∷ single_turn (bash_call "python3 -m pytest -q")
        ∷ complete_turn "done"
        ∷ [])
    s ←
        updated (executor_node (stub_host host))
          (starting (make_ticket "STUB-CONTEXT" workspace_dir))
    require (is_local_pass s.ticket_status)
    attempts ← call_history "STUB-CONTEXT"
    require (only_client (λ calls. length calls == 5) attempts)
    require (only_client (grows_from 1) attempts)
    require (only_client (λ calls. each_has_one (behind_first calls)) attempts)

  -- `'fast_check' in line and 'exit_code=0' not in line`
  abbrev pub is_failed_check : String → Bool
  is_failed_check line = contains "fast_check" line && not (contains "exit_code=0" line)

  -- The one entry of the ledger, for a log of so many lines.
  abbrev pub is_entry_for : ℕ → List DecisionSummary → Bool
  is_entry_for n (entry ∷ []) = entry.attempt_count == n
  is_entry_for n _ = false

  unfoldable pub scenario_strikes : Exec (Shared W) (Unit {0})
  scenario_strikes = do
    let workspace_dir = base_workspace <> "/strikes"
    on_left (seed_calc_project client workspace_dir)
    set_script "STUB-STRIKES" (
        single_turn (create_call (workspace_dir <> "/attempt_note.txt") "attempt in progress\n")
        ∷ complete_turn "made an attempt"
        ∷ [])
    executor_result ←
        executor_node (stub_host host) (starting (make_ticket "STUB-STRIKES" workspace_dir))
    let s = overlay (starting (make_ticket "STUB-STRIKES" workspace_dir)) executor_result
    require (is_escalated s.ticket_status)
    require (has_count s.strike_count max_strikes)
    require (count_if is_failed_check (or_nil executor_result.attempt_log) == max_strikes)
    attempts ← call_history "STUB-STRIKES"
    require (length attempts == max_strikes)
    require (is_threaded attempts)
    s' ← updated (validator_node (stub_host host)) s
    require (is_escalate (validator_router s'))
    let escalated_state = overlay s' (escalate_node host.max_escalations s')
    require (is_escalated escalated_state.ticket_status)
    require (is_empty (or_nil escalated_state.decision_ledger))
    let advanced = overlay escalated_state (advance_node escalated_state)
    require (
        is_entry_for (length (or_nil executor_result.attempt_log))
          (or_nil advanced.decision_ledger))
    require (is_empty_log advanced.attempt_log)
    require (is_halt (dispatch_router advanced))

  unfoldable pub scenario_happy : Exec (Shared W) (Unit {0})
  scenario_happy = do
    let workspace_dir = base_workspace <> "/happy"
    let calc_path = workspace_dir <> "/calc.py"
    on_left (seed_calc_project client workspace_dir)
    set_script "STUB-HAPPY" (
        single_turn (view_call calc_path)
        ∷ single_turn (str_replace_call calc_path "return a - b" "return a + b")
        ∷ single_turn (bash_call "python3 -m pytest -q")
        ∷ complete_turn "fixed calc.add and verified with pytest"
        ∷ [])
    s ← updated (executor_node (stub_host host)) (starting (make_ticket "STUB-HAPPY" workspace_dir))
    require (is_local_pass s.ticket_status)
    attempts ← call_history "STUB-HAPPY"
    require (only_client (λ calls. length calls == 4) attempts)
    require (
        only_client
          (are_results (λ content. str_eq content calc_buggy)
            (λ content. str_eq content ("edited " <> calc_path)) (contains "1 passed"))
          attempts)
    read_back ← on_left (client.read_file calc_path)
    require (contains "return a + b" read_back)
    s' ← updated (validator_node (stub_host host)) s
    require (truthy_flag s'.last_validation_passed)
    require (is_oversight (validator_router s'))
    s'' ← updated (oversight_git_node (stub_host host)) s'
    require (is_done s''.ticket_status)
    let advanced = overlay s'' (advance_node s'')
    require (length (or_nil advanced.decision_ledger) == 1)
    require (is_empty_log advanced.attempt_log)
    require (is_halt (dispatch_router advanced))

  -- `SCENARIOS`
  abbrev pub scenario : String → Option (Exec (Shared W) (Unit {0}))
  scenario name =
      if str_eq name "happy"
      then some scenario_happy
      else if str_eq name "cap"
      then some scenario_cap
      else if str_eq name "strikes"
      then some scenario_strikes
      else if str_eq name "context"
      then some scenario_context
      else none

module _ {W : Type 0} where
  abbrev pub again : Result (Unit {0}) → Exec (Shared W) (Unit {0})
  again (ok a) = pure a
  again (raised e) = raise e

  -- `finally`: what follows whether or not `m` raised.
  unfoldable pub closing :
      Exec (Shared W) (Unit {0}) → Exec W (Unit {0}) → Exec (Shared W) (Unit {0})
  closing m close = trying m λ r. on_left close >> again r

  module _ (host : Host W) (base_workspace : String) (elapsed_ok : Bool)
      (aclose : RuntimeClient W → Exec W (Unit {0})) where
    unfoldable pub run_scenario : String → Exec (Shared W) ℕ
    run_scenario name = do
      client ← on_left host.get_runtime_client
      elim (scenario host base_workspace elapsed_ok client name) [
        | none ↦ pure 2
        | some run ↦ closing run (aclose client) >> pure 0
      ]

    abbrev is_scenario : String → Bool
    is_scenario name =
        str_eq name "happy"
        || (str_eq name "cap" || (str_eq name "strikes" || str_eq name "context"))

    -- The code that the process exits with, for the arguments behind the name of the script.
    unfoldable pub main : List String → Exec (Shared W) ℕ
    main (name ∷ []) = when is_scenario name perform run_scenario name otherwise pure 2
    main [] = pure 2
    main (name ∷ other ∷ names) = pure 2
