-- ===== src/Prelude/Text.antt =====
-- Python's `str` of a natural number and `str.join`.
pub mod Digits
pub mod Decimal
use Prim.Native.Nat.{ℕ, zero, suc, ◌/◌, ◌%◌, compare, Ordering}
use Prim.Native.String.{String, ◌++◌ as ◌<>◌}
use mathlib.Core.Path.{◌≡◌, refl}
use mathlib.Core.List.{List, [], ◌∷◌}

digit : ℕ → String
digit zero = "0"
digit (suc zero) = "1"
digit (suc (suc zero)) = "2"
digit (suc (suc (suc zero))) = "3"
digit (suc (suc (suc (suc zero)))) = "4"
digit (suc (suc (suc (suc (suc zero))))) = "5"
digit (suc (suc (suc (suc (suc (suc zero)))))) = "6"
digit (suc (suc (suc (suc (suc (suc (suc zero))))))) = "7"
digit (suc (suc (suc (suc (suc (suc (suc (suc zero)))))))) = "8"
digit (suc (suc (suc (suc (suc (suc (suc (suc (suc n))))))))) = "9"

-- The last digit, after the digits of the tenth part; a number is fuel enough for itself.
digits : ℕ → ℕ → String
digits zero n = digit n
digits (suc fuel) n = elim (compare n 10) [
  | Ordering.lt ↦ digit n
  | _ ↦ digits fuel (n / 10) <> digit (n % 10)
]

-- `str(n)` of a natural number.
unfoldable pub str : ℕ → String
unfolding digits digit
str n = digits n n

-- `separator.join(parts)`
unfoldable pub join : String → List String → String
join separator [] = ""
join separator (part ∷ []) = part
join separator (part ∷ next ∷ parts) = part <> separator <> join separator (next ∷ parts)

str_example : str 40820 ≡ "40820"
unfolding str
str_example = refl

join_example : join "; " ("a" ∷ "b" ∷ []) ≡ "a; b"
unfolding join
join_example = refl
