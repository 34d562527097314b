-- ===== src/Scripts/ExecutorLoop/Dialogue.antt =====
-- The sizes of the requests of a conversation about a script of working turns.
use mathlib.Core.Bool.{false≢true}
use syndicate.Prelude.{
  ℕ, zero, suc, ◌+◌, ◌<◌, ◌≡◌, inl, inr, refl, sym, ap, ◌∙◌, String, Bool, true, false, Option,
  some, List, [], ◌∷◌, length, ◌==◌, ◌&&◌, arith,
}
use syndicate.Exec.{ok}
use syndicate.Llm.{Message, user, assistant, tool_results, Request}
use syndicate.StubLlm.{StubTurn}
use syndicate.Nodes.Script.{last_results, rest_of, IsDialogue}
use syndicate.Scripts.ExecutorLoop.Scenarios.{last_count, grows_from, each_has_one, behind_first}

-- So many turns that work, with one call each, and then one that is done.
abbrev pub Works : ℕ → StubTurn → List StubTurn → Type 0
Works zero t ts = t.done ≡ true
Works (suc n) t ts =
    (t.done ≡ false) × (length t.tool_calls ≡ 1) × Works n (rest_of t ts).0 (rest_of t ts).1

last_count-last_results : (ms : List Message) (n : ℕ) → last_results ms ≡ some n → last_count ms ≡ n
last_count-last_results [] n h = cc
last_count-last_results (user t ∷ []) n h = cc
last_count-last_results (assistant bs ∷ []) n h = cc
last_count-last_results (tool_results rs ∷ []) n h = cc
last_count-last_results (m ∷ k ∷ ms) n h = last_count-last_results (k ∷ ms) n h

pub both : (a b : Bool) → a ≡ true → b ≡ true → (a && b) ≡ true
both a b p q = rw (p, q) refl

pub same_number : (a b : ℕ) → a ≡ b → (a == b) ≡ true
same_number a b e = ground arith

one_result :
    (ms : List Message) (fresh : Option ℕ)
    → last_results ms ≡ fresh
    → fresh ≡ some 1
    → (last_count ms == 1) ≡ true
one_result ms fresh e f = same_number _ _ (last_count-last_results ms 1 (e ∙ f))

-- What the scenario asks of the requests of a conversation, the first of `m` messages.
abbrev pub IsSized : ℕ → ℕ → Option ℕ → List Request → Type 0
IsSized n m fresh requests =
    (length requests ≡ suc n)
    × (grows_from m requests ≡ true)
    × (fresh ≡ some 1 → each_has_one requests ≡ true)
    × (each_has_one (behind_first requests) ≡ true)

pub dialogue-IsSized :
    (opening : Message) (text : String) (n left m : ℕ) (fresh : Option ℕ) (t : StubTurn)
    (ts : List StubTurn) (requests : List Request)
    → n < left
    → Works n t ts
    → IsDialogue opening (ok text) left m fresh t ts requests
    → IsSized n m fresh requests
unfolding grows_from each_has_one
dialogue-IsSized opening text n zero m fresh t ts requests l works d = absurd (omega arith)
dialogue-IsSized opening text n (suc left) m fresh t ts [] l works d = absurd d
dialogue-IsSized opening text zero (suc left) m fresh t ts (request ∷ []) l works d = (
  refl,
  both _ _ (same_number _ _ d.1) refl,
  λ f. both _ _ (one_result request.messages fresh d.2 f) refl,
  refl,
)
dialogue-IsSized opening text zero (suc left) m fresh t ts (request ∷ next ∷ requests) l works d =
    elim d.3 [ inl (e, _) ↦ cc | inr (more, _) ↦ absurd (false≢true (sym more ∙ works)) ]
dialogue-IsSized opening text (suc n) (suc left) m fresh t ts (request ∷ requests) l works d =
    elim d.3 [
      | inl (_, inl over) ↦ absurd (false≢true (sym works.0 ∙ over))
      | inl (_, inr failed) ↦ absurd failed
      | inr (_, rest) ↦
          let sized =
            dialogue-IsSized opening text n left (m + 2) (some (length t.tool_calls))
              (rest_of t ts).0 (rest_of t ts).1 requests (omega arith) works.2 rest in
          let fresh_ones = sized.2 (ap some works.1) in
          (
            ap suc sized.0,
            both _ _ (same_number _ _ d.1) sized.1,
            λ f. both _ _ (one_result request.messages fresh d.2 f) fresh_ones,
            fresh_ones,
          )
    ]
