-- ===== src/Nodes/Shell/RoundTrip.antt =====
-- A shell reads back what `shlex.quote` wrote, so names, paths and messages reach `git` as they are.
use Prim.Native.Char.{Char, code}
use text.Mathlib.TextLemmas.{nil-append, cons-append, append_assoc}
use text.Mathlib.TextEquality.{Char-path}
use syndicate.Prelude.{
  ℕ, zero, suc, ◌<◌, String, ◌<>◌, ◌≡◌, ◌∙◌, refl, ap, sym, Bool, Bool-cases, true, false, not,
  ◌&&◌, ◌||◌, Option, some, List, ◌∷◌, ◌==◌, inl, inr, arith,
}
use syndicate.Nodes.Shell.{is_safe, all_safe, escape, quote}
use syndicate.Nodes.Shell.Words.{
  Kind, ordinary, kind, between, bare, single, mode_after, prepend, begin, words_before, words_from,
}

-- A text in front of the first word.
unfoldable pub prefixed : String → Option (List String) → Option (List String)
prefixed String.[] r = r
prefixed (String.◌∷◌ c s) r = prepend c (prefixed s r)

pub prefixed-some :
    (s w : String) (ws : List String) → prefixed s (some (w ∷ ws)) ≡ some ((s <> w) ∷ ws)
unfolding prefixed
prefixed-some String.[] w ws = rw (nil-append w) refl
prefixed-some (String.◌∷◌ c s) w ws = rw (prefixed-some s w ws, cons-append c s w) refl

-- A test of the numbers below a bound, largest last.
holds_to : (ℕ → Bool) → ℕ → Bool
holds_to test zero = true
holds_to test (suc top) = holds_to test top && test top

holds_to-at : (test : ℕ → Bool) (top c : ℕ) → holds_to test top ≡ true → c < top → test c ≡ true
unfolding holds_to
holds_to-at test zero c checked below = absurd (omega arith)
holds_to-at test (suc top) c checked below =
    let lower = holds_to-at test top c in ground (arith, lower)

abbrev is_ordinary : Kind → Bool
is_ordinary ordinary = true
is_ordinary _ = false

ordinary-eq : (k : Kind) → is_ordinary k ≡ true → k ≡ ordinary
ordinary-eq Kind.ordinary h = refl
ordinary-eq Kind.blank h = absurd (cc h)
ordinary-eq Kind.quote h = absurd (cc h)
ordinary-eq Kind.double_quote h = absurd (cc h)
ordinary-eq Kind.special h = absurd (cc h)

safe_table : holds_to (λ c. not (is_safe c) || is_ordinary (kind c)) 123 ≡ true
unfolding holds_to is_safe kind
safe_table = refl

safe-lt : (c : ℕ) → is_safe c ≡ true → c < 123
unfolding is_safe
safe-lt c h = ground arith

-- What `shlex.quote` leaves alone has no special meaning in a shell.
safe-kind : (c : ℕ) → is_safe c ≡ true → kind c ≡ ordinary
safe-kind c h =
    let t =
      holds_to-at (λ d. not (is_safe d) || is_ordinary (kind d)) 123 c safe_table (safe-lt c h) in
    ordinary-eq (kind c) (rw h at t)

-- An ordinary character, between words and in a word.
words_from-ordinary :
    (c : Char) (s : String)
    → kind (code c) ≡ ordinary
    → (words_from between (String.◌∷◌ c s) ≡ prepend c (words_from bare s))
      × (words_from bare (String.◌∷◌ c s) ≡ prepend c (words_from bare s))
unfolding words_from mode_after words_before
words_from-ordinary c s h = (rw h refl, rw h refl)

-- A safe text in a word.
words_from-safe :
    (s rest : String)
    → all_safe s ≡ true
    → words_from bare (s <> rest) ≡ prefixed s (words_from bare rest)
unfolding all_safe prefixed
words_from-safe String.[] rest h = rw (nil-append rest) refl
words_from-safe (String.◌∷◌ c s) rest h = elim (Bool-cases (is_safe (code c))) [
  | inl e ↦
      let ih = words_from-safe s rest (rw e at h) in
      ap (words_from bare) (cons-append c s rest)
      ∙ (words_from-ordinary c (s <> rest) (safe-kind (code c) e)).1
      ∙ ap (prepend c) ih
  | inr e ↦ absurd (cc (rw e at h))
]

tick-append : (s : String) → "'" <> s ≡ String.◌∷◌ "'" s
tick-append s = cons-append "'" "" s ∙ ap (λ t. String.◌∷◌ "'" t) (nil-append s)

ticks-append :
    (s : String)
    → "'\"'\"'" <> s
      ≡ String.◌∷◌ "'" (String.◌∷◌ "\"" (String.◌∷◌ "'" (String.◌∷◌ "\"" (String.◌∷◌ "'" s))))
ticks-append s =
    cons-append "'" "\"'\"'" s
    ∙ ap (λ t. String.◌∷◌ "'" t)
        (cons-append "\"" "'\"'" s
          ∙ ap (λ t. String.◌∷◌ "\"" t)
              (cons-append "'" "\"'" s
                ∙ ap (λ t. String.◌∷◌ "'" t)
                    (cons-append "\"" "'" s ∙ ap (λ t. String.◌∷◌ "\"" t) (tick-append s))))

-- What stands for a quote in a quoted text.
words_from-ticks :
    (s : String) → words_from single ("'\"'\"'" <> s) ≡ prepend "'" (words_from single s)
unfolding words_from mode_after words_before kind
words_from-ticks s = rw (ticks-append s) refl

words_from-tick : (s : String) → words_from single ("'" <> s) ≡ words_from bare s
unfolding words_from mode_after words_before kind
words_from-tick s = rw (tick-append s) refl

-- Another character in quotes.
words_from-single :
    (c : Char) (s : String)
    → code c == 39 ≡ false
    → words_from single (String.◌∷◌ c s) ≡ prepend c (words_from single s)
unfolding words_from mode_after words_before
words_from-single c s h = rw h refl

-- The text of a quoted word, and the quote that ends it.
words_from-escape :
    (s rest : String)
    → words_from single (escape s <> ("'" <> rest)) ≡ prefixed s (words_from bare rest)
unfolding escape prefixed
words_from-escape String.[] rest = rw (nil-append ("'" <> rest)) (words_from-tick rest)
words_from-escape (String.◌∷◌ c s) rest =
    let ih = words_from-escape s rest in
    elim (Bool-cases (code c == 39)) [
      | inl e ↦
          let same : c ≡ "'" = Char-path c "'" (ground arith) in
          rw e (
            ap (words_from single) (append_assoc "'\"'\"'" (escape s) ("'" <> rest))
            ∙ words_from-ticks (escape s <> ("'" <> rest))
            ∙ ap (prepend "'") ih
            ∙ ap (λ d. prepend d (prefixed s (words_from bare rest))) (sym same))
      | inr e ↦ rw e (
          ap (words_from single) (cons-append c (escape s) ("'" <> rest))
          ∙ words_from-single c (escape s <> ("'" <> rest)) e
          ∙ ap (prepend c) ih)
    ]

-- Where a word begins: with a quote, with two of them, with a safe character.
words_from-open : (s : String) → words_from between ("'" <> s) ≡ words_from single s
unfolding words_from mode_after words_before kind
words_from-open s = rw (tick-append s) refl

words_from-empty : (s : String) → words_from between ("''" <> s) ≡ words_from bare s
words_from-empty s =
    ap (words_from between) (cons-append "'" "'" s ∙ sym (tick-append ("'" <> s)))
    ∙ words_from-open ("'" <> s)
    ∙ words_from-tick s

words_from-begin :
    (c : Char) (s rest : String)
    → all_safe (String.◌∷◌ c s) ≡ true
    → words_from between (String.◌∷◌ c s <> rest) ≡ prefixed (String.◌∷◌ c s) (words_from bare rest)
unfolding all_safe prefixed
words_from-begin c s rest h = elim (Bool-cases (is_safe (code c))) [
  | inl e ↦
      ap (words_from between) (cons-append c s rest)
      ∙ (words_from-ordinary c (s <> rest) (safe-kind (code c) e)).0
      ∙ ap (prepend c) (words_from-safe s rest (rw e at h))
  | inr e ↦ absurd (cc (rw e at h))
]

-- A quoted text before the rest of a word, where a word begins.
pub words_from-quote :
    (s rest : String) → words_from between (quote s <> rest) ≡ prefixed s (words_from bare rest)
unfolding quote
words_from-quote String.[] rest = unfold prefixed in words_from-empty rest
words_from-quote (String.◌∷◌ c s) rest = elim (Bool-cases (all_safe (String.◌∷◌ c s))) [
  | inl e ↦ rw e (words_from-begin c s rest e)
  | inr e ↦
      let text = escape (String.◌∷◌ c s) in
      rw e (
        ap (words_from between)
          (append_assoc "'" (text <> "'") rest ∙ ap (λ t. "'" <> t) (append_assoc text "'" rest))
        ∙ words_from-open (text <> ("'" <> rest))
        ∙ words_from-escape (String.◌∷◌ c s) rest)
]

pub words_from-blank : (s : String) → words_from bare (" " <> s) ≡ begin (words_from between s)
unfolding words_from mode_after words_before kind
words_from-blank s =
    let e : " " <> s ≡ String.◌∷◌ " " s =
      cons-append " " "" s ∙ ap (λ t. String.◌∷◌ " " t) (nil-append s) in
    rw e refl
