-- ===== src/StubLlm/History.antt =====
-- What syndicate/stub_llm.py replies to the calls of one client, and what it records of them.
use mathlib.Core.List.{append_assoc, append-nil}
use syndicate.Prelude.{
  zero, suc, ◌⊎◌, inl, inr, true, false, Bool-cases, arith, subst, ℕ, ◌+◌, ◌≡◌, ◌∙◌, refl, ap, sym,
  String, some, List, [], ◌∷◌, ◌++◌,
}
use syndicate.Prelude.Maps.{put, find, find-put}
use syndicate.Exec.{Result, ok}
use syndicate.Llm.{Block, tool_use, Request, Response, LlmClient}
use syndicate.StubLlm.{
  StubToolCall, blocks_from, StubTurn, StubAnthropicClient, Stubs, turn_at, next_turn, reply_of,
  create, create_at, client_at, get_call_history, get_last_calls, set_stub_script, get_stub_client,
  client_for,
}

module _ {W : Type 0} where
  -- The calls of a client in order, with what each of them returns or raises.
  abbrev pub serve : LlmClient W → List Request → W → List (Result Response) × W
  serve client [] w = ([], w)
  serve client (request ∷ requests) w =
      let made = client.create request w in
      let rest = serve client requests made.1 in (made.0 ∷ rest.0, rest.1)

-- Blocks that are the calls of tools of a turn, in their order.
abbrev pub AreCalls : List StubToolCall → List Block → Type 0
AreCalls [] [] = Unit
AreCalls (call ∷ calls) (tool_use id name input ∷ blocks) =
    (name ≡ call.name) × (input ≡ call.input) × AreCalls calls blocks
AreCalls calls blocks = ⊥

-- What a turn says: that the work is done, with a text, or which tools are to be called.
pub record IsReply (turn : StubTurn) (response : Response) : Type 0 where
  pub kind :
      ((turn.done ≡ true)
        × (response.stop_reason ≡ "end_turn")
        × (response.content ≡ Block.text turn.text ∷ []))
      ⊎ ((turn.done ≡ false)
          × (response.stop_reason ≡ "tool_use")
          × AreCalls turn.tool_calls response.content)

-- The replies to requests by a script, which is read turn by turn; its last turn is read again and
-- again.
abbrev pub AreReplies : StubTurn → List StubTurn → List Request → List (Result Response) → Type 0
AreReplies t ts [] [] = Unit
AreReplies t [] (request ∷ requests) (ok response ∷ rest) =
    IsReply t response × AreReplies t [] requests rest
AreReplies t (u ∷ us) (request ∷ requests) (ok response ∷ rest) =
    IsReply t response × AreReplies u us requests rest
AreReplies t ts requests rest = ⊥

blocks_from-AreCalls :
    (call_index i : ℕ) (calls : List StubToolCall) → AreCalls calls (blocks_from call_index i calls)
unfolding blocks_from
blocks_from-AreCalls call_index i [] = tt
blocks_from-AreCalls call_index i (call ∷ calls) =
    (refl, refl, blocks_from-AreCalls call_index (i + 1) calls)

reply_of-IsReply : (call_index : ℕ) (turn : StubTurn) → IsReply turn (reply_of call_index turn)
reply_of-IsReply call_index turn = elim (Bool-cases turn.done) [
  | inl done ↦ rw done (record { kind = inl (refl, refl, refl) })
  | inr more ↦
      rw more
        (record { kind = inr (refl, refl, blocks_from-AreCalls call_index 0 turn.tool_calls) })
]

abbrev client_after : ℕ → StubTurn → List StubTurn → List Request → StubAnthropicClient
client_after i t ts seen = record { first = t; later = ts; call_index = i; calls_seen = seen }

-- From turn `i` of a script on, its turns are those of another script.
abbrev Continues : ℕ → StubTurn → List StubTurn → StubTurn → List StubTurn → Type 0
Continues i t ts u us = (j : ℕ) → turn_at (i + j) t ts ≡ turn_at j u us

turn_at-single : (j : ℕ) (t : StubTurn) → turn_at j t [] ≡ t
unfolding turn_at
turn_at-single zero t = refl
turn_at-single (suc j) t = refl

Continues-later :
    (i : ℕ) (t : StubTurn) (ts : List StubTurn) (u v : StubTurn) (vs : List StubTurn)
    → Continues i t ts u (v ∷ vs)
    → Continues (i + 1) t ts v vs
unfolding turn_at
Continues-later i t ts u v vs h j = ap (λ n. turn_at n t ts) (omega arith) ∙ h (suc j)

Continues-last :
    (i : ℕ) (t : StubTurn) (ts : List StubTurn) (u : StubTurn)
    → Continues i t ts u []
    → Continues (i + 1) t ts u []
Continues-last i t ts u h j =
    ap (λ n. turn_at n t ts) (omega arith)
    ∙ h (suc j)
    ∙ turn_at-single (suc j) u
    ∙ sym (turn_at-single j u)

Continues-some :
    (i : ℕ) (t : StubTurn) (ts : List StubTurn) (u : StubTurn) (us : List StubTurn)
    → Continues i t ts u us
    → (v : StubTurn) × (vs : List StubTurn) × Continues (i + 1) t ts v vs
Continues-some i t ts u [] h = (u, [], Continues-last i t ts u h)
Continues-some i t ts u (v ∷ vs) h = (v, vs, Continues-later i t ts u v vs h)

-- The client's next turn, and what remains of the script behind it.
served :
    (i : ℕ) (t : StubTurn) (ts : List StubTurn) (u : StubTurn) (us : List StubTurn)
    (request : Request) (requests : List Request) (rest : List (Result Response))
    → Continues i t ts u us
    → ((v : StubTurn) (vs : List StubTurn)
        → Continues (i + 1) t ts v vs
        → AreReplies v vs requests rest)
    → AreReplies u us (request ∷ requests) (ok (reply_of (i + 1) (turn_at i t ts)) ∷ rest)
unfolding turn_at
served i t ts u [] request requests rest h more = (
  subst (λ v. IsReply v (reply_of (i + 1) (turn_at i t ts)))
      (ap (λ n. turn_at n t ts) (omega arith) ∙ h 0) (reply_of-IsReply (i + 1) (turn_at i t ts)),
  more u [] (Continues-last i t ts u h),
)
served i t ts u (v ∷ vs) request requests rest h more = (
  subst (λ v. IsReply v (reply_of (i + 1) (turn_at i t ts)))
      (ap (λ n. turn_at n t ts) (omega arith) ∙ h 0) (reply_of-IsReply (i + 1) (turn_at i t ts)),
  more v vs (Continues-later i t ts u v vs h),
)

serve-client_at :
    (ticket_id : String) (t : StubTurn) (ts : List StubTurn) (requests seen : List Request) (i : ℕ)
    (u : StubTurn) (us : List StubTurn) (w : Stubs)
    → Continues i t ts u us
    → find ticket_id w.client_history ≡ some (client_after i t ts seen ∷ [])
    → AreReplies u us requests (serve (client_at ticket_id 0) requests w).0
      × (get_last_calls ticket_id (serve (client_at ticket_id 0) requests w).1 ≡ seen ++ requests)
unfolding client_at create_at create next_turn get_call_history get_last_calls
serve-client_at ticket_id t ts [] seen i u [] w c h = (tt, rw h (sym (append-nil seen)))
serve-client_at ticket_id t ts [] seen i u (v ∷ vs) w c h = (tt, rw h (sym (append-nil seen)))
serve-client_at ticket_id t ts (request ∷ requests) seen i u us w c h =
    let next = record w {
      client_history =
          put ticket_id (client_after (i + 1) t ts (seen ++ (request ∷ [])) ∷ []) w.client_history;
    } in
    let found =
      find-put ticket_id (client_after (i + 1) t ts (seen ++ (request ∷ [])) ∷ [])
        w.client_history in
    let later = λ (v : StubTurn) (vs : List StubTurn) (c' : Continues (i + 1) t ts v vs).
      serve-client_at ticket_id t ts requests (seen ++ (request ∷ [])) (i + 1) v vs next c' found in
    let behind = Continues-some i t ts u us c in
    rw h (
      served i t ts u us request requests _ c (λ v vs c'. (later v vs c').0),
      (later behind.0 behind.1 behind.2).1 ∙ append_assoc seen (request ∷ []) requests,
    )

-- After a script is set for a ticket, the ticket's client replies to requests with the turns of the
-- script in order, the last one again and again: a turn that is done with its text, and another with its
-- tool calls in order. The requests are recorded in order.
pub get_stub_client-replies :
    (repr : String → String) (ticket_id : String) (t : StubTurn) (ts : List StubTurn)
    (requests : List Request) (w : Stubs)
    → let got = get_stub_client repr ticket_id (set_stub_script ticket_id (t ∷ ts) w) in
      (got.0 ≡ ok (client_at ticket_id 0))
      × AreReplies t ts requests (serve (client_at ticket_id 0) requests got.1).0
      × (get_last_calls ticket_id (serve (client_at ticket_id 0) requests got.1).1 ≡ requests)
unfolding get_stub_client client_for set_stub_script get_call_history
get_stub_client-replies repr ticket_id t ts requests w =
    let scripts = find-put ticket_id (t ∷ ts) w.scripts in
    let history = find-put {A = List StubAnthropicClient} ticket_id [] w.client_history in
    let given =
      find-put ticket_id (client_after 0 t ts [] ∷ []) (put ticket_id [] w.client_history) in
    let played =
      serve-client_at ticket_id t ts requests [] 0 t ts
        (record {
          scripts = put ticket_id (t ∷ ts) w.scripts;
          client_history =
              put ticket_id (client_after 0 t ts [] ∷ []) (put ticket_id [] w.client_history);
        })
        (λ j. ap (λ n. turn_at n t ts) (omega arith)) given in
    rw (scripts, history) (refl, played.0, played.1)
