-- ===== src/Exec/Beside.antt =====
-- A computation beside a part of the world that it does not touch.
use syndicate.Prelude.{◌≡◌, refl, ◌∙◌, fun_ext, Bool, true, false}
use syndicate.Exec.{
  Exec, Result, ok, raised, Exception, pure, raise, continue, when◌perform◌otherwise◌, ◌>>=◌,
  trying,
}
use syndicate.Exec.Same.{bind-same, when-same}

module _ {W S A : Type 0} where
  unfoldable pub on_left : Exec W A → Exec (W × S) A
  on_left m (w, s) = let made = m w in (made.0, (made.1, s))

  unfoldable pub on_right : Exec S A → Exec (W × S) A
  on_right m (w, s) = let made = m s in (made.0, (w, made.1))

  pub on_left-pure : (a : A) → pure a ≡ on_left (pure a)
  unfolding on_left pure
  on_left-pure a = refl

  pub on_left-raise : (e : Exception) → raise e ≡ on_left (raise e)
  unfolding on_left raise
  on_left-raise e = refl

  on_left-branch :
      (b : Bool) (m n : Exec W A)
      → (when b perform on_left m otherwise on_left n) ≡ on_left (when b perform m otherwise n)
  unfolding when◌perform◌otherwise◌
  on_left-branch true m n = refl
  on_left-branch false m n = refl

  pub on_left-when :
      (b : Bool) (m n : Exec W A) {m' n' : Exec (W × S) A}
      → m' ≡ on_left m
      → n' ≡ on_left n
      → (when b perform m' otherwise n') ≡ on_left (when b perform m otherwise n)
  on_left-when b m n p q = when-same b p q ∙ on_left-branch b m n

module _ {W S A B : Type 0} where
  continue-on_left :
      (r : Result A) (f : A → Exec W B) (w : W) (s : S)
      → continue r (λ a. on_left (f a)) (w, s) ≡ on_left (λ v. continue r f v) (w, s)
  unfolding on_left
  continue-on_left (ok a) f w s = refl
  continue-on_left (raised e) f w s = refl

  bind-on_left :
      (m : Exec W A) (f : A → Exec W B)
      → (on_left {S = S} m >>= λ a. on_left (f a)) ≡ on_left (m >>= f)
  unfolding on_left ◌>>=◌
  bind-on_left m f = fun_ext λ ws. continue-on_left (m ws.0).0 f (m ws.0).1 ws.1

  pub on_left-bind :
      (m : Exec W A) (f : A → Exec W B) {m' : Exec (W × S) A} {f' : A → Exec (W × S) B}
      → m' ≡ on_left m
      → ((a : A) → f' a ≡ on_left (f a))
      → (m' >>= f') ≡ on_left (m >>= f)
  on_left-bind m f p q = bind-same p q ∙ bind-on_left m f

  pub on_left-trying :
      (m : Exec W A) (handler : Result A → Exec W B) {m' : Exec (W × S) A}
      {handler' : Result A → Exec (W × S) B}
      → m' ≡ on_left m
      → ((r : Result A) → handler' r ≡ on_left (handler r))
      → trying m' handler' ≡ on_left (trying m handler)
  unfolding on_left trying
  on_left-trying m handler p q = λ i ws. q (p i ws).0 i (p i ws).1
