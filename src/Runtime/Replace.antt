-- ===== src/Runtime/Replace.antt =====
-- `str_replace` of syndicate/runtime/base.py, with `str.count` and `str.replace(..., 1)`.
use Prim.Native.Char.{Char}
use text.Mathlib.Text.{starts_with}
use text.Mathlib.TextEquality.{starts_with_iff}
use text.Mathlib.TextLemmas.{nil-append, cons-append, append-nil}
use syndicate.Prelude.{
  ℕ, suc, ◌≡◌, ◌∙◌, refl, ap, sym, String, ◌<>◌, Bool, Bool-cases, true, false, ◌⊎◌, inl, inr, str,
  ◌==◌, if◌then◌else◌, arith,
}
use syndicate.Exec.{Result, ok, raised, Exception, value_error}

-- The text without as many characters as `part` has.
unfoldable pub without : String → String → String
without String.[] s = s
without (String.◌∷◌ p ps) String.[] = ""
without (String.◌∷◌ p ps) (String.◌∷◌ c s) = without ps s

abbrev rest_of : String → String
rest_of String.[] = ""
rest_of (String.◌∷◌ c s) = s

-- The occurrences that do not overlap, after as many characters as `skip` has. The empty text occurs
-- before each character and at the end.
unfoldable pub count_from : String → String → String → ℕ
count_from part skip String.[] = if starts_with "" part then 1 else 0
count_from part (String.◌∷◌ k ks) (String.◌∷◌ c s) = count_from part ks s
count_from part String.[] (String.◌∷◌ c s) =
    if starts_with (String.◌∷◌ c s) part
    then suc (count_from part (rest_of part) s)
    else count_from part "" s

-- `content.count(part)`
abbrev pub count : String → String → ℕ
count content part = count_from part "" content

-- `content.replace(part, new, 1)`
unfoldable pub replace_first : String → String → String → String
replace_first part new String.[] = if starts_with "" part then new else ""
replace_first part new (String.◌∷◌ c s) =
    let rest = replace_first part new s in
    if starts_with (String.◌∷◌ c s) part
    then new <> without part (String.◌∷◌ c s)
    else String.◌∷◌ c rest

-- `repr` is Python's.
abbrev pub miscount : (String → String) → String → String → String → Exception
miscount repr content old_string path = value_error (
    "expected exactly one occurrence of old_string in "
    <> repr path
    <> ", found "
    <> str (count content old_string))

unfoldable pub str_replace : (String → String) → String → String → String → String → Result String
unfolding count_from replace_first
str_replace repr content old_string new_string path =
    if count content old_string == 1
    then ok (replace_first old_string new_string content)
    else raised (miscount repr content old_string path)

pub without-append : (part rest : String) → without part (part <> rest) ≡ rest
unfolding without
without-append String.[] rest = nil-append rest
without-append (String.◌∷◌ p ps) rest = rw (cons-append p ps rest) (without-append ps rest)

count_from-without : (part skip s : String) → count_from part skip s ≡ count (without skip s) part
unfolding count_from without
count_from-without part String.[] s = refl
count_from-without part (String.◌∷◌ k ks) String.[] = refl
count_from-without part (String.◌∷◌ k ks) (String.◌∷◌ c s) = count_from-without part ks s

-- `content` with one occurrence of `part` replaced by `new`. No occurrence follows it.
pub record IsReplaced (part new content result : String) : Type 0 where
  pub before : String
  pub after : String
  pub found : content ≡ before <> (part <> after)
  pub replaced : result ≡ before <> (new <> after)
  pub alone : (count after part ≡ 0) ⊎ (part ≡ "")

abbrev is_nil : String → Bool
is_nil String.[] = true
is_nil (String.◌∷◌ c s) = false

starts_with-cons : (p : Char) (ps : String) → starts_with "" (String.◌∷◌ p ps) ≡ false
starts_with-cons p ps = elim (Bool-cases (starts_with "" (String.◌∷◌ p ps))) [
  | inl t ↦
      let h = (starts_with_iff "" (String.◌∷◌ p ps)).0 t in
      absurd (cc (ap is_nil (sym (cons-append p ps h.0) ∙ h.1)))
  | inr t ↦ t
]

-- The first occurrence is where the text starts.
here-IsReplaced :
    (part new : String) (c : Char) (s rest : String)
    → part <> rest ≡ String.◌∷◌ c s
    → count_from part (rest_of part) s ≡ 0
    → IsReplaced part new (String.◌∷◌ c s) (new <> without part (String.◌∷◌ c s))
unfolding without
here-IsReplaced String.[] new c s rest h gone = record {
  before = "";
  after = rest;
  found = sym h ∙ sym (nil-append ("" <> rest));
  replaced = ap (λ t. new <> t) (sym h ∙ nil-append rest) ∙ sym (nil-append (new <> rest));
  alone = inr refl;
}
here-IsReplaced (String.◌∷◌ p ps) new c s rest h gone =
    let w : without ps s ≡ rest =
      ap (without (String.◌∷◌ p ps)) (sym h) ∙ without-append (String.◌∷◌ p ps) rest in
    record {
      before = "";
      after = rest;
      found = sym h ∙ sym (nil-append (String.◌∷◌ p ps <> rest));
      replaced = ap (λ t. new <> t) w ∙ sym (nil-append (new <> rest));
      alone = inl (
          ap (λ t. count t (String.◌∷◌ p ps)) (sym w)
          ∙ sym (count_from-without (String.◌∷◌ p ps) ps s)
          ∙ gone);
    }

pub replace_first-IsReplaced :
    (part new content : String)
    → count content part ≡ 1
    → IsReplaced part new content (replace_first part new content)
unfolding count_from replace_first
replace_first-IsReplaced String.[] new String.[] one = record {
  before = "";
  after = "";
  found = refl;
  replaced = sym (append-nil new) ∙ sym (nil-append (new <> ""));
  alone = inr refl;
}
replace_first-IsReplaced (String.◌∷◌ p ps) new String.[] one =
    absurd (cc (rw (starts_with-cons p ps) at one))
replace_first-IsReplaced part new (String.◌∷◌ c s) one =
    elim (Bool-cases (starts_with (String.◌∷◌ c s) part)) [
      | inl t ↦
          let h = (starts_with_iff (String.◌∷◌ c s) part).0 t in
          let one' : suc (count_from part (rest_of part) s) ≡ 1 = rw t at one in
          rw t (here-IsReplaced part new c s h.0 h.1 (omega (arith, one')))
      | inr t ↦
          let later = replace_first-IsReplaced part new s (rw t at one) in
          rw t (record {
            before = String.◌∷◌ c later.before;
            after = later.after;
            found =
                ap (λ u. String.◌∷◌ c u) later.found
                ∙ sym (cons-append c later.before (part <> later.after));
            replaced =
                ap (λ u. String.◌∷◌ c u) later.replaced
                ∙ sym (cons-append c later.before (new <> later.after));
            alone = later.alone;
          })
    ]
