-- ===== src/Exec/Same.antt =====
-- When two computations are the same: one rule for each way to build one.
use syndicate.Prelude.{◌≡◌, refl, fun_ext, Bool}
use syndicate.Exec.{Exec, Result, ok, raised, pure, continue, when◌perform◌otherwise◌, ◌>>=◌}
use syndicate.Exec.Yields.{Returned, Yields}

module _ {ℓ} {W A B : Type ℓ} where
  pub bind-same :
      {m n : Exec W A} {f g : A → Exec W B} → m ≡ n → ((a : A) → f a ≡ g a) → m >>= f ≡ n >>= g
  bind-same p q = λ i. p i >>= λ a. q a i

module _ {ℓ} {W A : Type ℓ} where
  pub when-same :
      (b : Bool) {m m' n n' : Exec W A}
      → m ≡ m'
      → n ≡ n'
      → (when b perform m otherwise n) ≡ (when b perform m' otherwise n')
  when-same b p q = λ i. when b perform p i otherwise q i

module _ {ℓ κ} {W A B : Type ℓ} {P : A → Type κ} where
  continue-same :
      (r : Result A) (f g : A → Exec W B) (w : W)
      → Returned P r
      → ((a : A) → P a → f a ≡ g a)
      → continue r f w ≡ continue r g w
  continue-same (ok a) f g w p h = λ i. h a p i w
  continue-same (raised e) f g w p h = refl

  -- What follows has to be the same only for what the first part returns.
  pub bind-same_then :
      (m : Exec W A) (f g : A → Exec W B)
      → Yields P m
      → ((a : A) → P a → f a ≡ g a)
      → m >>= f ≡ m >>= g
  unfolding ◌>>=◌
  bind-same_then m f g y h = fun_ext λ w. continue-same (m w).0 f g (m w).1 (y.at w) h

module _ {ℓ} {W A B C : Type ℓ} where
  continue-mapped :
      (r : Result A) (h : A → B) (f : B → Exec W C) (w : W)
      → (continue r (λ a. pure (h a)) >>= f) w ≡ continue r (λ a. f (h a)) w
  unfolding ◌>>=◌
  continue-mapped (ok a) h f w = refl
  continue-mapped (raised e) h f w = refl

  pub bind-mapped :
      (m : Exec W A) (h : A → B) (f : B → Exec W C)
      → (m >>= λ a. pure (h a)) >>= f ≡ m >>= λ a. f (h a)
  unfolding ◌>>=◌
  bind-mapped m h f = fun_ext λ w. continue-mapped (m w).0 h f (m w).1

module _ {ℓ} {W A B C : Type ℓ} where
  continue_assoc :
      (r : Result A) (f : A → Exec W B) (g : B → Exec W C) (w : W)
      → (continue r f >>= g) w ≡ continue r (λ a. f a >>= g) w
  unfolding ◌>>=◌
  continue_assoc (ok a) f g w = refl
  continue_assoc (raised e) f g w = refl

  pub bind_assoc :
      (m : Exec W A) (f : A → Exec W B) (g : B → Exec W C) → (m >>= f) >>= g ≡ m >>= λ a. f a >>= g
  unfolding ◌>>=◌
  bind_assoc m f g = fun_ext λ w. continue_assoc (m w).0 f g (m w).1

module _ {ℓ} {W A B : Type ℓ} where
  pub pure-bind : (a : A) (f : A → Exec W B) → pure a >>= f ≡ f a
  unfolding ◌>>=◌
  pure-bind a f = refl
