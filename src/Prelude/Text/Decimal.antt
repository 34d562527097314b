-- ===== src/Prelude/Text/Decimal.antt =====
-- A decimal text read as a number: `str` of a natural number is read back.
use Prim.Native.Char.{code}
use Prim.Native.Nat.{ℕ, zero, suc, ◌+◌, ◌-◌, ◌*◌, ◌/◌, ◌%◌, ◌≤◌, ◌<◌, compare, Ordering}
use Prim.Native.String.{String, ◌++◌ as ◌<>◌}
use package.text.Mathlib.TextLemmas.{nil-append, cons-append}
use mathlib.Core.Path.{◌≡◌, refl, ap, ◌∙◌}
use mathlib.Core.Bool.{Bool, true, false}
use native.Mathlib.Omega.{arith}
use syndicate.Prelude.Text.{digit, digits, str}

-- The number of some digits behind a number.
pub value_from : ℕ → String → ℕ
value_from n String.[] = n
value_from n (String.◌∷◌ c s) = value_from (n * 10 + (code c - 48)) s

value_from-append : (n : ℕ) (s t : String) → value_from n (s <> t) ≡ value_from (value_from n s) t
unfolding value_from
value_from-append n String.[] t = ap (value_from n) (nil-append t)
value_from-append n (String.◌∷◌ c s) t =
    ap (value_from n) (cons-append c s t) ∙ value_from-append (n * 10 + (code c - 48)) s t

value_from-digit : (n d : ℕ) → d < 10 → value_from n (digit d) ≡ n * 10 + d
unfolding value_from digit
value_from-digit n zero h = omega arith
value_from-digit n (suc zero) h = omega arith
value_from-digit n (suc (suc zero)) h = omega arith
value_from-digit n (suc (suc (suc zero))) h = omega arith
value_from-digit n (suc (suc (suc (suc zero)))) h = omega arith
value_from-digit n (suc (suc (suc (suc (suc zero))))) h = omega arith
value_from-digit n (suc (suc (suc (suc (suc (suc zero)))))) h = omega arith
value_from-digit n (suc (suc (suc (suc (suc (suc (suc zero))))))) h = omega arith
value_from-digit n (suc (suc (suc (suc (suc (suc (suc (suc zero)))))))) h = omega arith
value_from-digit n (suc (suc (suc (suc (suc (suc (suc (suc (suc d))))))))) h = omega arith

abbrev is_lt : Ordering → Bool
is_lt o = elim o [ Ordering.lt ↦ true | _ ↦ false ]

small : (n : ℕ) → is_lt (compare n 10) ≡ true → n < 10
small n h = ground arith

large : (n : ℕ) → is_lt (compare n 10) ≡ false → 10 ≤ n
large n h = ground arith

-- The last digit behind the others.
value_from-last :
    (n : ℕ) (front : String)
    → value_from 0 front ≡ n / 10
    → value_from 0 (front <> digit (n % 10)) ≡ n
value_from-last n front h =
    value_from-append 0 front (digit (n % 10))
    ∙ value_from-digit (value_from 0 front) (n % 10) (omega arith)
    ∙ omega (arith, h)

one_digit : (n : ℕ) → n < 10 → value_from 0 (digit n) ≡ n
one_digit n h = value_from-digit 0 n h ∙ omega arith

-- The two cases of `digits`.
value_from-cases :
    (n : ℕ) (o : Ordering) (front : String)
    → compare n 10 ≡ o
    → (10 ≤ n → value_from 0 front ≡ n / 10)
    → value_from 0 (elim o [ Ordering.lt ↦ digit n | _ ↦ front <> digit (n % 10) ]) ≡ n
value_from-cases n Ordering.lt front c h = one_digit n (small n (ap is_lt c))
value_from-cases n Ordering.eq front c h = value_from-last n front (h (large n (ap is_lt c)))
value_from-cases n Ordering.gt front c h = value_from-last n front (h (large n (ap is_lt c)))

value_from-digits : (fuel n : ℕ) → n ≤ fuel → value_from 0 (digits fuel n) ≡ n
unfolding digits
value_from-digits zero n h = one_digit n (omega arith)
value_from-digits (suc fuel) n h =
    value_from-cases n (compare n 10) (digits fuel (n / 10)) refl
      λ more. value_from-digits fuel (n / 10) (omega arith)

pub value_from-str : (n : ℕ) → value_from 0 (str n) ≡ n
unfolding str
value_from-str n = value_from-digits n n (omega arith)
