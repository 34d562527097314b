-- ===== src/Server/Strikes.antt =====
-- The lines that the executor of syndicate/nodes.py logs, read by _extract_attempts of
-- server/runner.py.
use Prim.Native.Char.{code}
use package.text.Mathlib.Text.{starts_with}
use package.text.Mathlib.TextLemmas.{nil-append, cons-append, append_assoc}
use package.text.Mathlib.TextPositions.{starts_with_of_prefix}
use mathlib.Core.Bool.{or-true}
use mathlib.Core.Logic.{inl, inr}
use syndicate.Prelude.{
  ℕ, ◌≡◌, ◌∙◌, refl, ap, String, ◌<>◌, Bool, true, false, ◌&&◌, Bool-cases, some, none, List, [],
  ◌∷◌, leb, str, pos, is_space, arith, if◌then◌else◌,
}
use syndicate.Prelude.Text.Digits.{AllDigits, str-AllDigits}
use syndicate.Server.Value.{null, number, text, Fields, end, field}
use syndicate.Server.Events.{Python}
use syndicate.Server.Attempts.{contains, first_word, after_equals, strike_of, attempts_of}

digit_is_no_space : (c : ℕ) → (leb 48 c && leb c 57) ≡ true → is_space c ≡ false
unfolding is_space
digit_is_no_space c h = ground arith

starts_blank : String → Bool
starts_blank String.[] = false
starts_blank (String.◌∷◌ c s) = is_space (code c)

first_word-blank : (t : String) → starts_blank t ≡ true → first_word t ≡ ""
unfolding first_word starts_blank
first_word-blank String.[] h = refl
first_word-blank (String.◌∷◌ c s) h = rw h refl

-- A number is read up to the space behind it.
first_word-digits : (s t : String) → AllDigits s → starts_blank t ≡ true → first_word (s <> t) ≡ s
unfolding first_word
first_word-digits String.[] t h blank = rw nil-append (first_word-blank t blank)
first_word-digits (String.◌∷◌ d s) t h blank =
    let more = first_word-digits s t h.1 blank in
    rw (cons-append, digit_is_no_space (code d) h.0) (ap (String.◌∷◌ d) more)

-- An append that computes where its first text does.
prepend : String → String → String
prepend String.[] t = t
prepend (String.◌∷◌ c s) t = String.◌∷◌ c (prepend s t)

append-prepend : (s t : String) → s <> t ≡ prepend s t
unfolding prepend
append-prepend String.[] t = nil-append t
append-prepend (String.◌∷◌ c s) t = cons-append c s t ∙ ap (String.◌∷◌ c) (append-prepend s t)

-- The first word of a line of the executor ends in the number of the strike.
strike_word :
    (n : ℕ) (t : String)
    → starts_blank t ≡ true
    → after_equals (first_word ("strike=" <> str n <> t)) ≡ some (str n)
unfolding first_word after_equals is_space prepend
strike_word n t blank =
    ap (λ u. after_equals (first_word u)) (append-prepend "strike=" (str n <> t))
    ∙ ap some (first_word-digits (str n) t (str-AllDigits n) blank)

contains-starts : (part s : String) → starts_with s part ≡ true → contains part s ≡ true
unfolding contains
contains-starts part String.[] h = h
contains-starts part (String.◌∷◌ c s) h = rw h refl

contains-append : (part s t : String) → contains part t ≡ true → contains part (s <> t) ≡ true
unfolding contains
contains-append part String.[] t h = rw nil-append h
contains-append part (String.◌∷◌ c s) t h =
    let more = contains-append part s t h in
    rw (cons-append, more) (or-true (starts_with (String.◌∷◌ c (s <> t)) part))

starts_with-append : (part t : String) → starts_with (part <> t) part ≡ true
starts_with-append part t = starts_with_of_prefix _ _ (t, refl)

-- One round of the executor's loop: the texts behind the number of its strike in its two lines.
pub record Round : Type 0 where
  pub strike : ℕ
  pub summary : String
  pub check : String

abbrev pub summary_line : Round → String
summary_line r = "strike=" <> str r.strike <> " summary=" <> r.summary

abbrev pub check_line : Round → String
check_line r = "strike=" <> str r.strike <> " fast_check exit_code=" <> r.check

abbrev pub lines_of : List Round → List String
lines_of [] = []
lines_of (r ∷ rs) = summary_line r ∷ check_line r ∷ lines_of rs

-- The attempt that a line stands for.
abbrev pub attempt_of : ℕ → String → Fields
attempt_of strike line =
    field "strike" (number (pos strike)) (field "fast_check_summary" (text line) end)

-- One attempt for each round; a summary that mentions `fast_check` is taken for one too.
unfoldable pub attempts_in : List Round → List Fields
attempts_in [] = []
attempts_in (r ∷ rs) =
    let rest = attempt_of r.strike (check_line r) ∷ attempts_in rs in
    if contains "fast_check" (summary_line r)
    then attempt_of r.strike (summary_line r) ∷ rest
    else rest

contains-check_line : (r : Round) → contains "fast_check" (check_line r) ≡ true
contains-check_line r = contains-append "fast_check" "strike=" _ (
    contains-append "fast_check" (str r.strike) _ (
      ap (contains "fast_check") (append_assoc " " "fast_check exit_code=" r.check)
      ∙ contains-append "fast_check" " " ("fast_check exit_code=" <> r.check) (
          ap (contains "fast_check") (append_assoc "fast_check" " exit_code=" r.check)
          ∙ contains-starts "fast_check" _
              (starts_with-append "fast_check" (" exit_code=" <> r.check)))))

module _ (py : Python) (reads : (n : ℕ) → py.int (str n) ≡ some (pos n)) where
  strike_of_lem :
      (n : ℕ) (t : String)
      → starts_blank t ≡ true
      → strike_of py ("strike=" <> str n <> t) ≡ number (pos n)
  strike_of_lem n t blank =
      rw (starts_with-append "strike=" (str n <> t), strike_word n t blank)
        (ap (λ o. elim o [ none ↦ null | some m ↦ number m ]) (reads n))

  strike_of-summary_line : (r : Round) → strike_of py (summary_line r) ≡ number (pos r.strike)
  unfolding starts_blank is_space prepend
  strike_of-summary_line r =
      strike_of_lem r.strike _ (ap starts_blank (append-prepend " summary=" r.summary))

  strike_of-check_line : (r : Round) → strike_of py (check_line r) ≡ number (pos r.strike)
  unfolding starts_blank is_space prepend
  strike_of-check_line r =
      strike_of_lem r.strike _ (ap starts_blank (append-prepend " fast_check exit_code=" r.check))

  pub attempts_of-lines_of : (rs : List Round) → attempts_of py (lines_of rs) ≡ attempts_in rs
  unfolding attempts_of attempts_in
  attempts_of-lines_of [] = refl
  attempts_of-lines_of (r ∷ rs) =
      let rest = attempts_of-lines_of rs in
      elim (Bool-cases (contains "fast_check" (summary_line r))) [
        | inl mentioned ↦
            rw
              (
                contains-check_line r,
                strike_of-check_line r,
                rest,
                mentioned,
                strike_of-summary_line r,
              )
              refl
        | inr other ↦ rw (contains-check_line r, strike_of-check_line r, rest, other) refl
      ]
