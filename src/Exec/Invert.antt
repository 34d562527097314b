-- ===== src/Exec/Invert.antt =====
-- What a successful computation has done.
use syndicate.Prelude.{◌≡◌, refl, ap, Bool, true, false}
use syndicate.Exec.Yields.{Returned}
use syndicate.Exec.{Exec, Result, ok, raised, pure, when◌perform◌otherwise◌, continue, ◌>>=◌}

module _ {W A B : Type 0} where
  continue-eq-ok :
      (r : Result A) (v : W) (f : A → Exec W B) {b : B} {w' : W}
      → continue r f v ≡ (ok b, w')
      → (a : A) × (r ≡ ok a) × (f a v ≡ (ok b, w'))
  continue-eq-ok (ok a) v f h = (a, refl, h)
  continue-eq-ok (raised e) v f h = cc (ap (λ (p : Result B × W). p.0) h)

  -- Both parts of a bind succeeded, one after the other.
  pub >>=-eq-ok :
      (m : Exec W A) (f : A → Exec W B) (w : W) {b : B} {w' : W}
      → (m >>= f) w ≡ (ok b, w')
      → (a : A) × (v : W) × (m w ≡ (ok a, v)) × (f a v ≡ (ok b, w'))
  unfolding ◌>>=◌
  >>=-eq-ok m f w h =
      let (a, p, q) = continue-eq-ok (m w).0 (m w).1 f h in (a, (m w).1, λ i. (p i, (m w).1), q)

module _ {W A : Type 0} where
  -- The branch that a successful computation took, where the first one can be ruled out.
  pub when-eq-ok :
      (b : Bool) (m n : Exec W A) (w : W) {a : A} {w' : W}
      → (when b perform m otherwise n) w ≡ (ok a, w')
      → ¬ (m w ≡ (ok a, w'))
      → (b ≡ false) × (n w ≡ (ok a, w'))
  unfolding when◌perform◌otherwise◌
  when-eq-ok true m n w h k = absurd (k h)
  when-eq-ok false m n w h k = (refl, h)

  pub pure-eq-ok : (a : A) (w : W) {b : A} {w' : W} → pure a w ≡ (ok b, w') → (a ≡ b) × (w ≡ w')
  unfolding pure
  pure-eq-ok a w h = (cc (ap (λ (p : Result A × W). p.0) h), ap (λ (p : Result A × W). p.1) h)

module _ {W A : Type 0} (P : W → Type 0) where
  at_success :
      (m : Exec W A) (w v : W) (r : Result A)
      → ((a : A) (u : W) → m w ≡ (ok a, u) → P u)
      → m w ≡ (r, v)
      → Returned (λ (a : A). P v) r
  at_success m w v (ok a) h e = h a v e
  at_success m w v (raised x) h e = tt

  -- What every success of a computation has done.
  pub success_lem :
      (m : Exec W A) (w : W)
      → ((a : A) (u : W) → m w ≡ (ok a, u) → P u)
      → Returned (λ (a : A). P (m w).1) (m w).0
  success_lem m w h = at_success m w (m w).1 (m w).0 h refl
