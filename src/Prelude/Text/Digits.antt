-- ===== src/Prelude/Text/Digits.antt =====
-- The text of a natural number is made of digits.
use Prim.Native.Char.{code}
use Prim.Native.Nat.{ℕ, zero, suc, ◌/◌, ◌%◌, compare, Ordering}
use Prim.Native.String.{String, ◌++◌ as ◌<>◌}
use package.text.Mathlib.TextLemmas.{nil-append, cons-append}
use mathlib.Core.Path.{◌≡◌, refl, subst, sym}
use mathlib.Core.Bool.{true, ◌&&◌}
use syndicate.Prelude.Tests.{leb}
use syndicate.Prelude.Text.{digit, digits, str}

abbrev pub AllDigits : String → Type 0
AllDigits String.[] = Unit
AllDigits (String.◌∷◌ c s) = ((leb 48 (code c) && leb (code c) 57) ≡ true) × AllDigits s

digit-AllDigits : (n : ℕ) → AllDigits (digit n)
unfolding digit
digit-AllDigits zero = (refl, tt)
digit-AllDigits (suc zero) = (refl, tt)
digit-AllDigits (suc (suc zero)) = (refl, tt)
digit-AllDigits (suc (suc (suc zero))) = (refl, tt)
digit-AllDigits (suc (suc (suc (suc zero)))) = (refl, tt)
digit-AllDigits (suc (suc (suc (suc (suc zero))))) = (refl, tt)
digit-AllDigits (suc (suc (suc (suc (suc (suc zero)))))) = (refl, tt)
digit-AllDigits (suc (suc (suc (suc (suc (suc (suc zero))))))) = (refl, tt)
digit-AllDigits (suc (suc (suc (suc (suc (suc (suc (suc zero)))))))) = (refl, tt)
digit-AllDigits (suc (suc (suc (suc (suc (suc (suc (suc (suc n))))))))) = (refl, tt)

AllDigits-append : (s t : String) → AllDigits s → AllDigits t → AllDigits (s <> t)
AllDigits-append String.[] t h g = subst AllDigits (sym (nil-append t)) g
AllDigits-append (String.◌∷◌ c s) t h g =
    subst AllDigits (sym (cons-append c s t)) (h.0, AllDigits-append s t h.1 g)

AllDigits-cases :
    (o : Ordering) (s t : String)
    → AllDigits s
    → AllDigits t
    → AllDigits (elim o [ Ordering.lt ↦ s | _ ↦ t ])
AllDigits-cases Ordering.lt s t h g = h
AllDigits-cases Ordering.eq s t h g = g
AllDigits-cases Ordering.gt s t h g = g

digits-AllDigits : (fuel n : ℕ) → AllDigits (digits fuel n)
unfolding digits
digits-AllDigits zero n = digit-AllDigits n
digits-AllDigits (suc fuel) n = AllDigits-cases (compare n 10) _ _ (digit-AllDigits n) (
    AllDigits-append (digits fuel (n / 10)) (digit (n % 10)) (digits-AllDigits fuel (n / 10))
      (digit-AllDigits (n % 10)))

pub str-AllDigits : (n : ℕ) → AllDigits (str n)
unfolding str
str-AllDigits n = digits-AllDigits n n
