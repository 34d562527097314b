-- ===== src/Server/Listing/Order.antt =====
-- The order of texts by which runs are listed is total.
use Prim.Native.Nat.{Ordering, compare as compare_ℕ}
use Prim.Native.Char.{Char, code}
use Prim.Native.String.compare
use Prim.Native.String.{compare, then}
use mathlib.Core.Bool.{false≢true}
use syndicate.Prelude.{ℕ, ◌≡◌, ◌∙◌, refl, sym, ap, String, Bool, true, false, arith}
use syndicate.Server.Listing.{is_before}

abbrev is_lt : Ordering → Bool
is_lt Ordering.lt = true
is_lt Ordering.eq = false
is_lt Ordering.gt = false

-- The answer for two texts, given that for their first characters and that for the rests.
abbrev later : Ordering → Bool → Bool
later Ordering.lt b = true
later Ordering.eq b = b
later Ordering.gt b = false

then-later : (o p : Ordering) → is_lt (then o p) ≡ later o (is_lt p)
then-later Ordering.lt p = refl
then-later Ordering.eq p = refl
then-later Ordering.gt p = refl

before-cons :
    (c d : Char) (s t : String)
    → is_before (String.◌∷◌ c s) (String.◌∷◌ d t)
      ≡ later (compare_ℕ (code c) (code d)) (is_before s t)
before-cons c d s t =
    ap is_lt (compare.cons-cons c d s t) ∙ then-later (compare_ℕ (code c) (code d)) (compare s t)

later_asymm :
    (m n : ℕ) (x y : Bool)
    → (x ≡ true → y ≡ false)
    → later (compare_ℕ m n) x ≡ true
    → later (compare_ℕ n m) y ≡ false
later_asymm m n x y h p = ground arith

later_trans :
    (m n k : ℕ) (x y z : Bool)
    → (x ≡ false → y ≡ false → z ≡ false)
    → later (compare_ℕ n m) x ≡ false
    → later (compare_ℕ k n) y ≡ false
    → later (compare_ℕ k m) z ≡ false
later_trans m n k x y z h p q = ground arith

pub is_before_asymm : (s t : String) → is_before s t ≡ true → is_before t s ≡ false
is_before_asymm String.[] String.[] h = ap is_lt compare.nil-nil
is_before_asymm String.[] (String.◌∷◌ d t) h = ap is_lt (compare.cons-nil d t)
is_before_asymm (String.◌∷◌ c s) String.[] h =
    absurd (false≢true (sym (ap is_lt (compare.cons-nil c s)) ∙ h))
is_before_asymm (String.◌∷◌ c s) (String.◌∷◌ d t) h =
    before-cons d c t s
    ∙ later_asymm (code c) (code d) (is_before s t) (is_before t s) (is_before_asymm s t)
        (sym (before-cons c d s t) ∙ h)

-- Not to be before is transitive.
pub not_before_trans :
    (s t u : String) → is_before t s ≡ false → is_before u t ≡ false → is_before u s ≡ false
not_before_trans String.[] t String.[] h g = ap is_lt compare.nil-nil
not_before_trans String.[] t (String.◌∷◌ e u) h g = ap is_lt (compare.cons-nil e u)
not_before_trans (String.◌∷◌ c s) String.[] u h g =
    absurd (false≢true (sym h ∙ ap is_lt (compare.nil-cons c s)))
not_before_trans (String.◌∷◌ c s) (String.◌∷◌ d t) String.[] h g =
    absurd (false≢true (sym g ∙ ap is_lt (compare.nil-cons d t)))
not_before_trans (String.◌∷◌ c s) (String.◌∷◌ d t) (String.◌∷◌ e u) h g =
    before-cons e c u s
    ∙ later_trans (code c) (code d) (code e) (is_before t s) (is_before u t) (is_before u s)
        (not_before_trans s t u) (sym (before-cons d c t s) ∙ h) (sym (before-cons e d u t) ∙ g)
