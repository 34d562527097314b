-- ===== src/Nodes/Script/Attempts.antt =====
-- The attempts of the executor of syndicate/nodes.py over a script, and the script replayed for each of
-- them on the sandbox alone.
use mathlib.Core.List.{append_assoc, append-nil}
use syndicate.Prelude.{
  ℕ, zero, suc, ◌+◌, ◌≡◌, ◌∙◌, refl, sym, ap, String, ◌<>◌, Option, none, some, List, [], ◌∷◌, ◌++◌,
  length, or_text, or_nil,
}
use syndicate.Prelude.Maps.{put, find, find-put}
use syndicate.Exec.{Exec, Result, ◌>>=◌}
use syndicate.Exec.Same.{bind-mapped}
use syndicate.Exec.Beside.{on_left, on_right}
use syndicate.Exec.Simulates.{
  Agree, Simulates, Simulates-pure, Simulates-same, Simulates-on_left, Simulates-when,
  Simulates-bind,
}
use syndicate.State.{AgentState, Ticket}
use syndicate.Runtime.Base.{RuntimeClient}
use syndicate.Llm.{user, LlmClient}
use syndicate.Host.{Host}
use syndicate.StubLlm.{
  StubTurn, StubAnthropicClient, Stubs, client_at, get_call_history, client_for, get_stub_client,
}
use syndicate.StubLlm.Shared.{Shared, sandboxed, scripted, stub_host}
use syndicate.Nodes.Config.{max_tool_calls}
use syndicate.Nodes.Loop.{user_content, get_llm_client, run_agentic_loop}
use syndicate.Nodes.Executor.{ticket_of, workspace_of, id_of, attempts, executor_node}
use syndicate.Nodes.Script.{IsDialogue}
use syndicate.Nodes.Script.Rounds.{Trace, attempt, rounds, replay}
use syndicate.Nodes.Script.Loop.{turns-IsPlayed}
use syndicate.Nodes.Script.Played.{client_after}
use syndicate.Nodes.Beside.{run_fast_checks-on_left, run_dummies-on_left}

module _ (prompt : String) (t : StubTurn) (ts : List StubTurn) where
  -- A client for each attempt, which was told of the one before and was asked in one dialogue.
  abbrev pub Threads : Trace → List StubAnthropicClient → Type 0
  Threads [] [] = Unit
  Threads [] (c ∷ cs) = ⊥
  Threads (a ∷ trace) [] = ⊥
  Threads ((feedback, result) ∷ trace) (c ∷ cs) =
      IsDialogue (user (user_content prompt feedback)) result max_tool_calls 1 none t ts
        c.calls_seen
      × Threads trace cs

  Threads-snoc :
      (trace : Trace) (cs : List StubAnthropicClient) (feedback : Option String)
      (result : Result String) (c : StubAnthropicClient)
      → Threads trace cs
      → IsDialogue
          (user (user_content prompt feedback))
          result
          max_tool_calls
          1
          none
          t
          ts
          c.calls_seen
      → Threads (trace ++ ((feedback, result) ∷ [])) (cs ++ (c ∷ []))
  Threads-snoc [] [] feedback result c h d = (d, tt)
  Threads-snoc [] (b ∷ cs) feedback result c h d = absurd h
  Threads-snoc (a ∷ trace) [] feedback result c h d = absurd h
  Threads-snoc ((f, r) ∷ trace) (b ∷ cs) feedback result c h d =
      (h.0, Threads-snoc trace cs feedback result c h.1 d)

  module _ (id : String) (older : List StubAnthropicClient) where
    -- The history of a ticket: the clients that it had, and one for each attempt.
    pub record IsThreaded (s : Stubs) (trace : Trace) : Type 0 where
      pub scripts : find id s.scripts ≡ some (t ∷ ts)
      pub clients : List StubAnthropicClient
      pub history : get_call_history id s ≡ older ++ clients
      pub threads : Threads trace clients

module _ {W : Type 0} (host : Host W) (t : StubTurn) (ts : List StubTurn) (id : String)
    (older : List StubAnthropicClient) where
  -- The stubs behind the making of one more client.
  abbrev with_client : List StubAnthropicClient → Stubs → Stubs
  with_client history s = record s {
    client_history =
        put id (history ++ (record { first = t; later = ts; call_index = 0; calls_seen = [] } ∷ []))
          s.client_history;
  }

  get_llm_client-scripted :
      {A : Type 0} (ticket_id : Option String) (f : LlmClient (Shared W) → Exec (Shared W) A)
      (w : W) (s : Stubs) (history : List StubAnthropicClient)
      → or_text ticket_id "" ≡ id
      → find id s.scripts ≡ some (t ∷ ts)
      → get_call_history id s ≡ history
      → (get_llm_client (stub_host host) ticket_id >>= f) (w, s)
        ≡ f (scripted (client_at id (length history))) (w, with_client history s)
  unfolding get_llm_client ◌>>=◌ on_right get_stub_client client_for
  get_llm_client-scripted ticket_id f w s history named script past =
      rw named (rw script (rw past refl))

  module _ (client : RuntimeClient W) (ticket : Ticket) (prompt : String) where
    loop-Simulates :
        (feedback ticket_id : Option String)
        → or_text ticket_id "" ≡ id
        → Simulates
            (IsThreaded prompt t ts id older)
            (run_agentic_loop
              (stub_host host)
              (sandboxed client)
              (workspace_of ticket)
              prompt
              feedback
              ticket_id)
            (attempt host t ts client ticket feedback)
    unfolding run_agentic_loop attempt get_call_history
    loop-Simulates feedback ticket_id named = record {
      at = λ w s trace h.
          let history = older ++ h.clients in
          let opening = user (user_content prompt feedback) in
          let p =
            turns-IsPlayed id history t ts opening host client (workspace_of ticket) max_tool_calls
              0 (opening ∷ []) [] w (with_client history s) refl (find-put _ _ _) in
          rw (get_llm_client-scripted ticket_id _ w s history named h.scripts h.history) (
            p.result,
            p.world,
            record {
              scripts = ap (find id) p.scripts ∙ h.scripts;
              clients =
                  h.clients
                  ++ (client_after id history t ts opening (0 + length p.requests) p.requests ∷ []);
              history = ap or_nil p.holds ∙ append_assoc older h.clients _;
              threads = Threads-snoc prompt t ts trace h.clients feedback _ _ h.threads p.dialogue;
            },
          );
    }

    attempts-Simulates :
        (left before : ℕ) (log : List String) (feedback : Option String)
        → prompt ≡ "Ticket: " <> host.repr_ticket ticket
        → or_text (id_of ticket) "" ≡ id
        → Simulates
            (IsThreaded prompt t ts id older)
            (attempts (stub_host host) (sandboxed client) ticket left before log feedback)
            (rounds host t ts client ticket left before log feedback)
    unfolding attempts rounds
    attempts-Simulates zero before log feedback asked named = Simulates-pure _
    attempts-Simulates (suc left) before log feedback asked named =
        Simulates-bind _ _
          (Simulates-same
            (ap
              (λ p.
                run_agentic_loop (stub_host host) (sandboxed client) (workspace_of ticket) p
                  feedback (id_of ticket))
              (sym asked))
            (loop-Simulates feedback (id_of ticket) named))
          λ summary.
            Simulates-bind _ _
              (Simulates-same (run_fast_checks-on_left client (workspace_of ticket))
                (Simulates-on_left _))
              λ check.
                Simulates-when _ (Simulates-pure _)
                  (attempts-Simulates left (before + 1) _ (some check.output) asked named)

-- The ticket by which the stand-in for the model knows the scripts.
abbrev pub key : AgentState → String
key u = or_text (id_of (ticket_of u)) ""

abbrev pub prompt_of : {W : Type 0} → Host W → AgentState → String
prompt_of host u = "Ticket: " <> host.repr_ticket (ticket_of u)

module _ {W : Type 0} (host : Host W) (t : StubTurn) (ts : List StubTurn) (u : AgentState) where
  executor_node-Simulates :
      (older : List StubAnthropicClient)
      → Simulates
          (IsThreaded (prompt_of host u) t ts (key u) older)
          (executor_node (stub_host host) u)
          (replay host t ts u)
  unfolding executor_node replay
  executor_node-Simulates older =
      Simulates-same (bind-mapped (on_left host.get_runtime_client) sandboxed _) (
        Simulates-bind _ _ (Simulates-on_left _) λ client.
          Simulates-when client.is_mock
            (Simulates-same (run_dummies-on_left host client _ _) (Simulates-on_left _))
            (attempts-Simulates host t ts (key u) older client (ticket_of u) (prompt_of host u) _ _
              _ _ refl refl))

  -- If a script is set for the ticket, the executor over the stand-in for the model ends as it would if
  -- each of its attempts played the script from its start on the sandbox, with no model: its update or
  -- exception and the world are the same. The history of the ticket has a new client for each attempt,
  -- in order. Its first message is the prompt with the output that the attempt before failed on, or for
  -- the first attempt with the diagnosis in the state; each request begins with that message, has two
  -- messages more than the one before, and ends in the results of the last turn's calls and no others;
  -- and there is a request for each turn, up to the first that is done or raises, or 25.
  pub executor_node-replay :
      (w : W) (s : Stubs)
      → find (key u) s.scripts ≡ some (t ∷ ts)
      → Agree
          (IsThreaded (prompt_of host u) t ts (key u) (get_call_history (key u) s))
          (executor_node (stub_host host) u (w, s))
          (replay host t ts u (w, []))
  executor_node-replay w s script =
      (executor_node-Simulates (get_call_history (key u) s)).at w s []
        (record { scripts = script; clients = []; history = sym (append-nil _); threads = tt })
