-- ===== src/Exec/Yields.antt =====
-- What a computation yields when it does not raise: one rule for each way to build one.
use syndicate.Prelude.{◌≡◌, refl, Bool, true, false}
use syndicate.Exec.{
  Exec, Result, ok, raised, Exception, pure, raise, continue, when◌perform◌otherwise◌, ◌>>=◌,
}

module _ {ℓ κ} {A : Type ℓ} where
  abbrev pub Returned : (A → Type κ) → Result A → Type κ
  Returned Q (ok a) = Q a
  Returned Q (raised e) = Unit

-- Whatever the world, a value that `m` returns satisfies `Q`.
pub record Yields {ℓ κ} {W A : Type ℓ} (Q : A → Type κ) (m : Exec W A) : Type (ℓ ⊔ κ) where
  pub at : (w : W) → Returned Q (m w).0

module _ {ℓ κ} {W A : Type ℓ} {Q : A → Type κ} where
  pub Yields-pure : (a : A) → Q a → Yields {W = W} Q (pure a)
  unfolding pure
  Yields-pure a h = record { at = λ w. h }

  pub Yields-raise : (e : Exception) → Yields {W = W} Q (raise e)
  unfolding raise
  Yields-raise e = record { at = λ w. tt }

  pub Yields-when :
      (b : Bool) (m n : Exec W A)
      → (b ≡ true → Yields Q m)
      → (b ≡ false → Yields Q n)
      → Yields Q (when b perform m otherwise n)
  unfolding when◌perform◌otherwise◌
  Yields-when true m n p q = p refl
  Yields-when false m n p q = q refl

module _ {ℓ κ} {W A B : Type ℓ} {Q : B → Type κ} where
  at_continue :
      (r : Result A) (f : A → Exec W B) (w : W)
      → ((a : A) → Yields Q (f a))
      → Returned Q (continue r f w).0
  at_continue (ok a) f w h = (h a).at w
  at_continue (raised e) f w h = tt

  -- Nothing is asked of what runs first.
  pub Yields-bind :
      (m : Exec W A) (f : A → Exec W B) → ((a : A) → Yields Q (f a)) → Yields Q (m >>= f)
  unfolding ◌>>=◌
  Yields-bind m f h = record { at = λ w. at_continue (m w).0 f (m w).1 h }

module _ {ℓ κ ι} {W A B : Type ℓ} {P : A → Type ι} {Q : B → Type κ} where
  at_then :
      (r : Result A) (f : A → Exec W B) (w : W)
      → Returned P r
      → ((a : A) → P a → Yields Q (f a))
      → Returned Q (continue r f w).0
  at_then (ok a) f w p h = (h a p).at w
  at_then (raised e) f w p h = tt

  -- What follows may use what the first part returned.
  pub Yields-then :
      (m : Exec W A) (f : A → Exec W B)
      → Yields P m
      → ((a : A) → P a → Yields Q (f a))
      → Yields Q (m >>= f)
  unfolding ◌>>=◌
  Yields-then m f y h = record { at = λ w. at_then (m w).0 f (m w).1 (y.at w) h }

module _ {ℓ κ} {A : Type ℓ} {Q R : A → Type κ} where
  at_weaken : (r : Result A) → ((a : A) → Q a → R a) → Returned Q r → Returned R r
  at_weaken (ok a) h q = h a q
  at_weaken (raised e) h q = tt

module _ {ℓ κ} {W A : Type ℓ} {Q R : A → Type κ} where
  pub Yields-weaken : (m : Exec W A) → ((a : A) → Q a → R a) → Yields Q m → Yields R m
  Yields-weaken m h y = record { at = λ w. at_weaken (m w).0 h (y.at w) }

pub ruleset yields_rules = (Yields-pure, Yields-raise, Yields-when, Yields-bind)
