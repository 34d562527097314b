-- ===== src/Scripts/ExecutorLoop/Context.antt =====
-- The scenario about the context, over a sandbox on which its script can be played.
use syndicate.Prelude.{
  ℕ, suc, ◌<◌, ◌≡◌, refl, ap, subst, ◌∙◌, ◌++◌, String, ◌<>◌, Bool, Option, none, some, List, [],
  ◌∷◌, length, or_nil, ◌==◌, arith, is_zero, false, true,
}
use syndicate.Exec.{Exec, Result, ok, pure, continue, ◌>>=◌, ◌>>◌, when◌perform◌otherwise◌}
use syndicate.Exec.Beside.{on_left}
use syndicate.Exec.Total.{otherwise_at}
use syndicate.Runtime.Base.{ActionResult, RuntimeClient}
use syndicate.Llm.{user}
use syndicate.Host.{Host}
use syndicate.StubLlm.{
  StubTurn, StubAnthropicClient, Stubs, get_call_history, set_stub_script, tool_turn, complete_turn,
}
use syndicate.Nodes.Executor.{run_fast_checks, workspace_of, executor_node}
use syndicate.Nodes.Script.{play}
use syndicate.State.{AgentState, Ticket, local_pass}
use syndicate.Nodes.Config.{max_tool_calls}
use syndicate.Nodes.Script.Rounds.{Trace, attempt, rounds, replay}
use syndicate.Scripts.ExecutorLoop.Dialogue.{Works, IsSized, same_number, dialogue-IsSized}
use syndicate.StubLlm.Shared.{Shared, stub_host}
use syndicate.Prelude.Maps.{find, find-put}
use syndicate.Exec.Same.{bind-mapped}
use syndicate.Nodes.Loop.{user_content}
use syndicate.Nodes.Script.Attempts.{Threads, key, prompt_of, executor_node-replay}
use syndicate.Scripts.ExecutorLoop.Scenarios.{
  starting, updated, call_history, set_script, only_client, scenario_context, grows_from,
  each_has_one, behind_first,
}
use syndicate.State.Update.{overlay}
use syndicate.Scripts.SmokeReal.{is_local_pass}
use syndicate.Scripts.Checks.{require}
use syndicate.Scripts.ExecutorLoop.{
  bash_call, view_call, str_replace_call, seed_calc_project, make_ticket, single_turn,
}

-- The executor passed in its first attempt.
record IsOneRound {W : Type 0} (r : Result AgentState × (W × Trace)) : Type 0 where
  update : AgentState
  result : r.0 ≡ ok update
  passed : update.ticket_status ≡ some local_pass
  feedback : Option String
  text : String
  trace : r.1.1 ≡ (feedback, ok text) ∷ []

module _ {W : Type 0} (host : Host W) (t : StubTurn) (ts : List StubTurn) where
  -- The sandbox from the world in which the executor starts: the script, played on it without a model,
  -- returns, and the fast checks in the world that it leaves exit with 0.
  pub record IsWorking (ticket : Ticket) (w : W) : Type 0 where
    pub client : RuntimeClient W
    pub opened : W
    pub got : host.get_runtime_client w ≡ (ok client, opened)
    pub real : client.is_mock ≡ false
    pub summary : String
    pub edited : W
    pub played :
        play host client (workspace_of ticket) max_tool_calls t ts opened ≡ (ok summary, edited)
    pub check : ActionResult
    pub checked : W
    pub ran : run_fast_checks client (workspace_of ticket) edited ≡ (ok check, checked)
    pub passes : is_zero check.exit_code ≡ true

module _ {W : Type 0} (host : Host W) (n : ℕ) (t : StubTurn) (ts : List StubTurn)
    (few : n < max_tool_calls) where
  rounds-IsOneRound :
      (ticket : Ticket) (w : W) (c : IsWorking host t ts ticket w) (left before : ℕ)
      (log : List String) (feedback : Option String)
      → IsOneRound (rounds host t ts c.client ticket (suc left) before log feedback (c.opened, []))
  unfolding rounds attempt on_left ◌>>=◌ pure when◌perform◌otherwise◌
  rounds-IsOneRound ticket w c left before log feedback = rw c.played (
      rw c.ran (
        rw c.passes (record {
          update = _;
          result = refl;
          passed = refl;
          feedback = feedback;
          text = c.summary;
          trace = refl;
        })))

  replay-IsOneRound :
      (ticket : Ticket) (w : W)
      → IsWorking host t ts ticket w
      → IsOneRound (replay host t ts (starting ticket) (w, []))
  unfolding replay on_left ◌>>=◌
  replay-IsOneRound ticket w c = rw c.got (
      otherwise_at IsOneRound c.client.is_mock _ _ (c.opened, []) c.real
        (rounds-IsOneRound ticket w c 2 0 [] none))

  single_client :
      (prompt : String) (feedback : Option String) (text : String)
      (clients : List StubAnthropicClient)
      → Threads prompt t ts ((feedback, ok text) ∷ []) clients
      → Works n t ts
      → (c : StubAnthropicClient) × (clients ≡ c ∷ []) × IsSized n 1 none c.calls_seen
  single_client prompt feedback text [] h works = absurd h
  single_client prompt feedback text (c ∷ d ∷ cs) h works = absurd h.1
  single_client prompt feedback text (c ∷ []) h works = (
    c,
    refl,
    dialogue-IsSized (user (user_content prompt feedback)) text n max_tool_calls 1 none t ts
        c.calls_seen few works h.0,
  )

  -- After the executor: a pass, and one client, which was asked as the scenario wants.
  record IsSettled (key : String) (r : Result AgentState × Shared W) : Type 0 where
    update : AgentState
    result : r.0 ≡ ok update
    passed : update.ticket_status ≡ some local_pass
    client : StubAnthropicClient
    history : get_call_history key r.1.1 ≡ client ∷ []
    sized : IsSized n 1 none client.calls_seen

  executor-IsSettled :
      (ticket : Ticket) (w : W) (s : Stubs)
      → IsWorking host t ts ticket w
      → Works n t ts
      → find (key (starting ticket)) s.scripts ≡ some (t ∷ ts)
      → get_call_history (key (starting ticket)) s ≡ []
      → IsSettled (key (starting ticket)) (executor_node (stub_host host) (starting ticket) (w, s))
  executor-IsSettled ticket w s c works script new =
      let agree = executor_node-replay host t ts (starting ticket) w s script in
      let round = replay-IsOneRound ticket w c in
      let threaded = agree.2 in
      let one =
        single_client (prompt_of host (starting ticket)) round.feedback round.text threaded.clients
          (subst (λ trace. Threads (prompt_of host (starting ticket)) t ts trace threaded.clients)
            round.trace threaded.threads)
          works in
      record {
        update = round.update;
        result = agree.0 ∙ round.result;
        passed = round.passed;
        client = one.0;
        history = threaded.history ∙ ap (λ older. older ++ threaded.clients) new ∙ one.1;
        sized = one.2;
      }

module _ {W : Type 0} (host : Host W) (base_workspace : String) (elapsed_ok : Bool)
    (client : RuntimeClient W) where
  abbrev pub workspace : String
  workspace = base_workspace <> "/context"

  abbrev pub later : List StubTurn
  later =
      single_turn (str_replace_call (workspace <> "/calc.py") "return a - b" "return a + b")
      ∷ single_turn (bash_call "echo checkpoint-1")
      ∷ single_turn (bash_call "python3 -m pytest -q")
      ∷ complete_turn "done"
      ∷ []

  abbrev pub first : StubTurn
  first = single_turn (view_call (workspace <> "/calc.py"))

  abbrev pub ticket : Ticket
  ticket = make_ticket "STUB-CONTEXT" workspace

  first-Works : Works 4 first later
  unfolding tool_turn complete_turn
  first-Works = (refl, refl, (refl, refl, (refl, refl, (refl, refl, refl))))

  -- What the scenario does when the executor has ended.
  abbrev asserted : AgentState → Exec (Shared W) (Unit {0})
  asserted s = do
    require (is_local_pass s.ticket_status)
    attempts ← call_history "STUB-CONTEXT"
    require (only_client (λ calls. length calls == 5) attempts)
    require (only_client (grows_from 1) attempts)
    require (only_client (λ calls. each_has_one (behind_first calls)) attempts)

  asserted-ok :
      (u : AgentState) (v : W) (s : Stubs) (d : StubAnthropicClient)
      → u.ticket_status ≡ some local_pass
      → get_call_history "STUB-CONTEXT" s ≡ d ∷ []
      → IsSized 4 1 none d.calls_seen
      → (asserted (overlay (starting ticket) u) (v, s)).0 ≡ ok tt
  unfolding require ◌>>=◌ pure when◌perform◌otherwise◌
  asserted-ok u v s d passed known sized =
      rw (passed, known) (rw (same_number _ _ sized.0, sized.1, sized.3) refl)

  executed :
      (r : Result AgentState × Shared W)
      → IsSettled host 4 first later (omega arith) "STUB-CONTEXT" r
      → (continue r.0 (λ u. asserted (overlay (starting ticket) u)) r.1).0 ≡ ok tt
  executed r h = rw h.result (asserted-ok h.update r.1.0 r.1.1 h.client h.passed h.history h.sized)

  from_seed :
      (w : W) (s : Stubs)
      → IsWorking host first later ticket w
      → ((set_script "STUB-CONTEXT" (first ∷ later)
            >> (updated (executor_node (stub_host host)) (starting ticket) >>= asserted))
          (w, s)).0
        ≡ ok tt
  unfolding ◌>>=◌ set_stub_script make_ticket get_call_history
  from_seed w s c =
      let ready = set_stub_script "STUB-CONTEXT" (first ∷ later) s in
      ap (λ m. (m (w, ready)).0)
        (bind-mapped (executor_node (stub_host host) (starting ticket)) (overlay (starting ticket))
          asserted)
      ∙ executed (executor_node (stub_host host) (starting ticket) (w, ready)) (
          executor-IsSettled host 4 first later (omega arith) ticket w ready c first-Works
            (find-put "STUB-CONTEXT" (first ∷ later) s.scripts)
            (ap or_nil
              (find-put {A = List StubAnthropicClient} "STUB-CONTEXT" [] s.client_history)))

  -- If the project was seeded, and if from the world that this left the script of the scenario, played
  -- without a model on a sandbox that is not the mock, returns, and the fast checks behind it exit with
  -- 0, then the scenario passes, whatever was scripted before: the executor makes one attempt, of five
  -- requests; they have 1, 3, 5, 7 and 9 messages, and each one behind the first ends in the one result
  -- of the call before.
  pub scenario_context-ok :
      (w w' : W) (s : Stubs)
      → seed_calc_project client workspace w ≡ (ok tt, w')
      → IsWorking host first later ticket w'
      → (scenario_context host base_workspace elapsed_ok client (w, s)).0 ≡ ok tt
  unfolding scenario_context on_left ◌>>=◌
  scenario_context-ok w w' s seeded c = rw seeded (from_seed w' s c)
