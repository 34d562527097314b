-- ===== src/Exec/Total.antt =====
-- When a computation returns, and what: one rule for each way to build one.
use mathlib.Core.Bool.{false≢true}
use syndicate.Prelude.{sym, ◌≡◌, refl, Bool, true, false}
use syndicate.Exec.{Exec, Result, ok, raised, pure, continue, when◌perform◌otherwise◌, ◌>>=◌}

module _ {ℓ} {A : Type ℓ} where
  -- A value that satisfies `Q`, and no exception.
  abbrev pub Success : (A → Type 0) → Result A → Type 0
  Success Q (ok a) = Q a
  Success Q (raised e) = ⊥

-- Whatever the world, `m` returns a value that satisfies `Q`.
pub record Total {ℓ} {W A : Type ℓ} (Q : A → Type 0) (m : Exec W A) : Type ℓ where
  pub at : (w : W) → Success Q (m w).0

module _ {ℓ} {W A : Type ℓ} {Q : A → Type 0} where
  pub Total-pure : (a : A) → Q a → Total {W = W} Q (pure a)
  unfolding pure
  Total-pure a h = record { at = λ w. h }

  pub Total-when :
      (b : Bool) (m n : Exec W A)
      → (b ≡ true → Total Q m)
      → (b ≡ false → Total Q n)
      → Total Q (when b perform m otherwise n)
  unfolding when◌perform◌otherwise◌
  Total-when true m n p q = p refl
  Total-when false m n p q = q refl

module _ {ℓ} {W A B : Type ℓ} {P : A → Type 0} {Q : B → Type 0} where
  at_bind :
      (r : Result A) (f : A → Exec W B) (w : W)
      → Success P r
      → ((a : A) → P a → Total Q (f a))
      → Success Q (continue r f w).0
  at_bind (ok a) f w p h = (h a p).at w
  at_bind (raised e) f w p h = absurd p

  pub Total-bind :
      (m : Exec W A) (f : A → Exec W B)
      → Total P m
      → ((a : A) → P a → Total Q (f a))
      → Total Q (m >>= f)
  unfolding ◌>>=◌
  Total-bind m f y h = record { at = λ w. at_bind (m w).0 f (m w).1 (y.at w) h }

module _ {ℓ} {A : Type ℓ} {Q R : A → Type 0} where
  pub at_weaken : (r : Result A) → ((a : A) → Q a → R a) → Success Q r → Success R r
  at_weaken (ok a) h q = h a q
  at_weaken (raised e) h q = absurd q

module _ {W A : Type 0} where
  pub otherwise_at :
      (P : Result A × W → Type 0) (b : Bool) (m n : Exec W A) (w : W)
      → b ≡ false
      → P (n w)
      → P ((when b perform m otherwise n) w)
  unfolding when◌perform◌otherwise◌
  otherwise_at P true m n w e h = absurd (false≢true (sym e))
  otherwise_at P false m n w e h = h
