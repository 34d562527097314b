-- ===== src/Nodes/Script/Loop.antt =====
-- The loop of an attempt, and the script played beside it.
use package.text.Mathlib.TextLemmas.{append-nil as text_append_nil}
use syndicate.Prelude.{
  ℕ, zero, suc, ◌+◌, ◌≡◌, ◌∙◌, ◌⊎◌, refl, ap, subst, String, str_eq, true, false, Bool-cases, inl,
  inr, Option, some, List, [], ◌∷◌, ◌++◌, length, length-append, arith,
}
use syndicate.Prelude.Maps.{find-put}
use syndicate.Exec.{Exec, Result, ok, raised, pure, continue, when◌perform◌otherwise◌, ◌>>=◌, ◌>>◌}
use syndicate.Exec.Yields.{Returned}
use syndicate.Exec.Same.{bind-same, bind-mapped}
use syndicate.Exec.Beside.{on_left}
use syndicate.Runtime.Base.{RuntimeClient}
use syndicate.Llm.{
  Block, ToolResult, Message, assistant, tool_results, Request, Response, reply_text,
}
use syndicate.Host.{Host}
use syndicate.StubLlm.{StubTurn, StubAnthropicClient, Stubs, reply_of, blocks_from, client_at}
use syndicate.StubLlm.Shared.{Shared, sandboxed, scripted, stub_host}
use syndicate.Nodes.Config.{executor_model, executor_tools}
use syndicate.Nodes.Loop.{run_tools, turns}
use syndicate.Nodes.Script.{
  last_results, first_message, rest_of, IsRaised, IsDialogue, run_calls, play,
}
use syndicate.Nodes.Script.Played.{
  Holds, asked, create-client_at, IsPlayed, none-IsPlayed, next-IsPlayed, weaken-IsPlayed,
}
use syndicate.Nodes.Script.Turns.{
  first_message-append, reached, last_results-snoc, scripted-bind, play-suc, run_calls-run_tools,
  run_tools-length,
}
use syndicate.Nodes.Beside.{run_tools-on_left}

module _ (id : String) (older : List StubAnthropicClient) (first : StubTurn) (later : List StubTurn)
    (opening : Message) where
  module _ {W : Type 0} (host : Host W) (client : RuntimeClient W) (cwd : String) where
    -- The loop of an attempt with its scripted client.
    abbrev pub loop : ℕ → List Message → Exec (Shared W) String
    loop left messages =
        turns (stub_host host) (sandboxed client) cwd (scripted (client_at id (length older))) left
          messages

    -- The script that is left, when `turn` comes next.
    abbrev pub left_over : ℕ → StubTurn × List StubTurn → W → Result String × W
    left_over left turn = play host client cwd left turn.0 turn.1

    -- A dialogue about it, of which one message or more is there.
    abbrev pub About :
        ℕ → ℕ → Option ℕ → StubTurn × List StubTurn → Result String → List Request → Type 0
    About left n fresh turn result requests =
        IsDialogue opening result left n fresh turn.0 turn.1 requests

    IsPlayed-same :
        (left i n m : ℕ) (fresh last : Option ℕ) (turn next : StubTurn × List StubTurn)
        (seen : List Request) (w : W) (s : Stubs) (made : Result String × Shared W)
        → n ≡ m
        → fresh ≡ last
        → turn ≡ next
        → IsPlayed id older first later opening
            (About left n fresh turn (left_over left turn w).0)
            i
            seen
            s
            made
            (left_over left turn w)
        → IsPlayed id older first later opening
            (About left m last next (left_over left next w).0)
            i
            seen
            s
            made
            (left_over left next w)
    IsPlayed-same left i n m fresh last turn next seen w s made p q r h =
        subst {A = ℕ × Option ℕ × (StubTurn × List StubTurn)}
          (λ k.
            IsPlayed id older first later opening (About left k.0 k.1 k.2 (left_over left k.2 w).0)
              i seen s made (left_over left k.2 w))
          (λ t. (p t, q t, r t)) h

    -- The loop goes on as the script does, from every point.
    abbrev pub Plays : ℕ → Type 0
    Plays left =
        (i : ℕ) (messages : List Message) (seen : List Request) (w : W) (s : Stubs)
        → first_message messages ≡ some opening
        → Holds id older first later opening i seen s
        → IsPlayed id older first later opening
            (About left (length messages) (last_results messages) (reached i first later)
              (left_over left (reached i first later) w).0)
            i seen s (loop left messages (w, s)) (left_over left (reached i first later) w)

    module _ (left i : ℕ) (messages : List Message) (seen : List Request) where
      abbrev turn : StubTurn × List StubTurn
      turn = reached i first later

      reached-next : reached (i + 1) first later ≡ rest_of turn.0 turn.1
      reached-next = let e : i + 1 ≡ suc i = omega arith in ap (λ j. reached j first later) e

      abbrev request : Request
      request = record {
        model = executor_model;
        max_tokens = 8096;
        tools = executor_tools;
        messages = messages;
      }

      -- What may follow the request of the turn.
      abbrev Follows : Result String → List Request → Type 0
      Follows result requests =
          ((requests ≡ []) × ((turn.0.done ≡ true) ⊎ IsRaised result))
          ⊎ ((turn.0.done ≡ false)
              × About left (length messages + 2) (some (length turn.0.tool_calls))
                  (rest_of turn.0 turn.1) result requests)

      -- What follows the tools of a turn, whose blocks are in the conversation.
      after_tools :
          (blocks : List Block) (r : Result (List ToolResult)) (w : W) (s : Stubs)
          → Plays left
          → turn.0.done ≡ false
          → first_message messages ≡ some opening
          → Holds id older first later opening (i + 1) (seen ++ (request ∷ [])) s
          → Returned (λ rs. length rs ≡ length turn.0.tool_calls) r
          → IsPlayed id older first later opening
              (Follows (continue r (λ rs. left_over left (rest_of turn.0 turn.1)) w).0)
              (i + 1)
              (seen ++ (request ∷ []))
              s
              (continue r
                (λ rs. loop left ((messages ++ (assistant blocks ∷ [])) ++ (tool_results rs ∷ [])))
                (w, s))
              (continue r (λ rs. left_over left (rest_of turn.0 turn.1)) w)
      after_tools blocks (raised e) w s plays more begun h same =
          none-IsPlayed id older first later opening (i + 1) (seen ++ (request ∷ [])) s
            (Follows (raised e)) (raised e) w (inl (refl, inr tt)) h
      after_tools blocks (ok rs) w s plays more begun h same =
          let shown = messages ++ (assistant blocks ∷ []) in
          let whole = shown ++ (tool_results rs ∷ []) in
          let all = seen ++ (request ∷ []) in
          let next = rest_of turn.0 turn.1 in
          weaken-IsPlayed id older first later opening (i + 1) all s _
            (Follows (left_over left next w).0) (loop left whole (w, s)) (left_over left next w)
            (λ requests d. inr (more, d))
            (IsPlayed-same left (i + 1) (length whole) (length messages + 2) (last_results whole)
              (some (length turn.0.tool_calls)) (reached (i + 1) first later) next all w s
              (loop left whole (w, s))
              (omega (
                arith,
                length-append {0} shown (tool_results rs ∷ []),
                length-append {0} messages (assistant blocks ∷ []),
              ))
              (last_results-snoc shown rs ∙ ap some same) reached-next
              (plays (i + 1) whole all w s
                (first_message-append shown _
                  (first_message-append messages (assistant blocks ∷ []) begun))
                h))

      -- The script's turn, by the blocks that carry its calls.
      played_tools :
          (k : ℕ) (t : StubTurn) (m : Exec W String)
          → (run_calls host client cwd t.tool_calls >> m)
            ≡ (run_tools host client cwd (blocks_from k 0 t.tool_calls) >>= λ results. m)
      played_tools k t m =
          bind-same (run_calls-run_tools host client cwd k 0 t.tool_calls) (λ done. refl)
          ∙ bind-mapped _ _ _

      -- What the loop does with a reply.
      abbrev answered : Response → Exec (Shared W) String
      answered response =
          when str_eq response.stop_reason "tool_use"
          perform (run_tools (stub_host host) (sandboxed client) cwd response.content >>= λ results.
              loop left
                ((messages ++ (assistant response.content ∷ [])) ++ (tool_results results ∷ [])))
          otherwise pure (reply_text response.content)

      loop-suc :
          (w : W) (s : Stubs)
          → Holds id older first later opening i seen s
          → loop (suc left) messages (w, s)
            ≡ answered
                (reply_of (i + 1) turn.0)
                (w, asked id older first later opening i seen request s)
      unfolding turns
      loop-suc w s h =
          scripted-bind (client_at id (length older)) request answered w
            (create-client_at id older first later opening i seen request s h)

      -- The blocks of the turn, and what the sandbox makes of them.
      abbrev blocks : List Block
      blocks = blocks_from (i + 1) 0 turn.0.tool_calls

      abbrev ran : W → Result (List ToolResult) × W
      ran = run_tools host client cwd blocks

      answered_tools :
          (f : List ToolResult → Exec (Shared W) String) (w : W) (s : Stubs)
          → (run_tools (stub_host host) (sandboxed client) cwd blocks >>= f) (w, s)
            ≡ continue (ran w).0 f ((ran w).1, s)
      unfolding ◌>>=◌ on_left
      answered_tools f w s = rw (run_tools-on_left host client cwd blocks) refl

      played_calls :
          (m : Exec W String) (w : W)
          → (run_calls host client cwd turn.0.tool_calls >> m) w
            ≡ continue (ran w).0 (λ results. m) (ran w).1
      unfolding ◌>>=◌
      played_calls m w = ap (λ k. k w) (played_tools (i + 1) turn.0 m)

      -- The turn on the sandbox alone.
      abbrev turn_played : W → Result String × W
      turn_played =
          when turn.0.done
          perform pure turn.0.text
          otherwise (run_calls host client cwd turn.0.tool_calls
              >> left_over left (rest_of turn.0 turn.1))

      answered-IsPlayed :
          (w : W) (s : Stubs)
          → Plays left
          → first_message messages ≡ some opening
          → Holds id older first later opening (i + 1) (seen ++ (request ∷ [])) s
          → IsPlayed id older first later opening
              (Follows (turn_played w).0)
              (i + 1)
              (seen ++ (request ∷ []))
              s
              (answered (reply_of (i + 1) turn.0) (w, s))
              (turn_played w)
      unfolding when◌perform◌otherwise◌ pure reply_text
      answered-IsPlayed w s plays begun h = elim (Bool-cases turn.0.done) [
        | inl e ↦ rw e (
            rw (text_append_nil turn.0.text) (
              none-IsPlayed id older first later opening (i + 1) (seen ++ (request ∷ [])) s _ _ w
                (inl (refl, inl e)) h))
        | inr e ↦ rw e (
            rw (answered_tools _ w s, played_calls (left_over left (rest_of turn.0 turn.1)) w)
              (after_tools blocks (ran w).0 (ran w).1 s plays e begun h
                ((run_tools-length host client cwd (i + 1) 0 turn.0.tool_calls).at w)))
      ]

    pub turns-IsPlayed : (left : ℕ) → Plays left
    unfolding turns play pure
    turns-IsPlayed zero i messages seen w s begun h =
        none-IsPlayed id older first later opening i seen s _ _ w tt h
    turns-IsPlayed (suc left) i messages seen w s begun h =
        let now = reached i first later in
        let asked_for = request left i messages seen in
        rw (play-suc host client cwd left now.0 now.1) (
          rw (loop-suc left i messages seen w s h) (
            next-IsPlayed id older first later opening i seen s (Follows left i messages seen _) _
              asked_for _ _ (λ requests d. (begun, refl, refl, d))
              (answered-IsPlayed left i messages seen w
                (asked id older first later opening i seen asked_for s) (turns-IsPlayed left) begun
                (find-put _ _ _))))
