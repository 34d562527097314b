-- ===== src/Nodes/Script/Turns.antt =====
-- The turns of a script, as the loop reaches them and as the script is played.
use syndicate.Prelude.{
  ℕ, zero, suc, ◌+◌, ◌≡◌, ◌∙◌, refl, sym, ap, String, some, List, [], ◌∷◌, ◌++◌, length,
}
use syndicate.Exec.{Exec, ok, pure, when◌perform◌otherwise◌, ◌>>=◌, ◌>>◌}
use syndicate.Exec.Yields.{Yields, Yields-pure, Yields-bind, Yields-then}
use syndicate.Exec.Same.{bind-same, bind-mapped, bind_assoc, pure-bind}
use syndicate.Exec.Beside.{on_right}
use syndicate.Runtime.Base.{RuntimeClient}
use syndicate.Llm.{ToolResult, Message, user, assistant, tool_results, Request, Response, LlmClient}
use syndicate.Host.{Host}
use syndicate.StubLlm.{
  StubToolCall, StubTurn, StubAnthropicClient, Stubs, turn_at, blocks_from, create, create_at,
}
use syndicate.StubLlm.Shared.{Shared, scripted}
use syndicate.Nodes.Loop.{run_tools}
use syndicate.Nodes.Script.{last_results, first_message, rest_of, run_calls, play}

pub first_message-append :
    (ms ns : List Message) {m : Message}
    → first_message ms ≡ some m
    → first_message (ms ++ ns) ≡ some m
first_message-append [] ns h = cc
first_message-append (n ∷ ms) ns h = h

module _ {W : Type 0} (host : Host W) (client : RuntimeClient W) (cwd : String) where
  pub play-suc :
      (left : ℕ) (t : StubTurn) (ts : List StubTurn)
      → play host client cwd (suc left) t ts ≡ (
          when t.done
          perform pure t.text
          otherwise (run_calls host client cwd t.tool_calls
              >> play host client cwd left (rest_of t ts).0 (rest_of t ts).1))
  unfolding play
  play-suc left t [] = refl
  play-suc left t (u ∷ us) = refl

  pub run_calls-run_tools :
      (index k : ℕ) (calls : List StubToolCall)
      → run_calls host client cwd calls
        ≡ run_tools host client cwd (blocks_from index k calls) >>= λ results. pure tt
  unfolding run_tools blocks_from
  run_calls-run_tools index k [] = sym (pure-bind _ _)
  run_calls-run_tools index k (call ∷ calls) =
      bind-same refl (λ outcome. run_calls-run_tools index (k + 1) calls ∙ sym (bind-mapped _ _ _))
      ∙ sym (bind_assoc _ _ _)

  pub run_tools-length :
      (index k : ℕ) (calls : List StubToolCall)
      → Yields
          (λ rs. length rs ≡ length calls)
          (run_tools host client cwd (blocks_from index k calls))
  unfolding run_tools blocks_from
  run_tools-length index k [] = Yields-pure _ refl
  run_tools-length index k (call ∷ calls) = Yields-bind _ _ λ outcome.
      Yields-then _ _ (run_tools-length index (k + 1) calls) λ rs same. Yields-pure _ (ap suc same)

-- The turn of a script that call `i` is answered with, and what is left behind it.
abbrev pub reached : ℕ → StubTurn → List StubTurn → StubTurn × List StubTurn
reached zero t ts = (t, ts)
reached (suc i) t ts = rest_of (reached i t ts).0 (reached i t ts).1

pub reached-rest_of :
    (i : ℕ) (t : StubTurn) (ts : List StubTurn)
    → reached i (rest_of t ts).0 (rest_of t ts).1 ≡ reached (suc i) t ts
reached-rest_of zero t ts = refl
reached-rest_of (suc i) t ts = ap (λ r. rest_of r.0 r.1) (reached-rest_of i t ts)

reached-nil : (i : ℕ) (t : StubTurn) → t ≡ (reached (suc i) t []).0
reached-nil zero t = refl
reached-nil (suc i) t = reached-nil i t ∙ ap (λ r. r.0) (reached-rest_of (suc i) t [])

pub turn_at-reached :
    (i : ℕ) (t : StubTurn) (ts : List StubTurn) → turn_at i t ts ≡ (reached i t ts).0
unfolding turn_at
turn_at-reached zero t ts = refl
turn_at-reached (suc i) t [] = reached-nil i t
turn_at-reached (suc i) t (u ∷ us) =
    turn_at-reached i u us ∙ ap (λ r. r.0) (reached-rest_of i t (u ∷ us))

pub last_results-snoc :
    (ms : List Message) (rs : List ToolResult)
    → last_results (ms ++ (tool_results rs ∷ [])) ≡ some (length rs)
last_results-snoc [] rs = refl
last_results-snoc (user t ∷ []) rs = refl
last_results-snoc (assistant bs ∷ []) rs = refl
last_results-snoc (tool_results qs ∷ []) rs = refl
last_results-snoc (m ∷ n ∷ ms) rs = last_results-snoc (n ∷ ms) rs

pub create_at-snoc :
    (older : List StubAnthropicClient) (request : Request) (c : StubAnthropicClient)
    → create_at (length older) request (older ++ (c ∷ []))
      ≡ (older ++ ((create request c).0 ∷ []), some (create request c).1)
unfolding create_at
create_at-snoc [] request c = refl
create_at-snoc (d ∷ older) request c =
    ap (λ made. (d ∷ made.0, made.1)) (create_at-snoc older request c)

module _ {W A : Type 0} (llm : LlmClient Stubs) where
  pub scripted-bind :
      (request : Request) {s s' : Stubs} {reply : Response} (f : Response → Exec (Shared W) A)
      (w : W)
      → llm.create request s ≡ (ok reply, s')
      → ((scripted llm).create request >>= f) (w, s) ≡ f reply (w, s')
  unfolding ◌>>=◌ on_right
  scripted-bind request f w e = rw e refl
