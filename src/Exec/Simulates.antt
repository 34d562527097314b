-- ===== src/Exec/Simulates.antt =====
-- When two computations on one part of the world are the same, while what lies beside it is kept in
-- two forms: one rule for each way to build one.
use syndicate.Prelude.{◌≡◌, refl, subst, Bool, true, false}
use syndicate.Exec.{Exec, Result, ok, raised, pure, continue, when◌perform◌otherwise◌, ◌>>=◌}
use syndicate.Exec.Beside.{on_left}

module _ {W S T : Type 0} (R : S → T → Type 0) where
  -- The same outcome and the same world, and the two forms agree.
  abbrev pub Agree : {A : Type 0} → Result A × (W × S) → Result A × (W × T) → Type 0
  Agree (r, (w, s)) (q, (v, t)) = (r ≡ q) × (w ≡ v) × R s t

  pub record Simulates {A : Type 0} (m : Exec (W × S) A) (n : Exec (W × T) A) : Type 0 where
    pub at : (w : W) (s : S) (t : T) → R s t → Agree (m (w, s)) (n (w, t))

module _ {W S T A : Type 0} {R : S → T → Type 0} where
  pub Simulates-pure : (a : A) → Simulates {W = W} R (pure a) (pure a)
  unfolding pure
  Simulates-pure a = record { at = λ w s t h. (refl, refl, h) }

  pub Simulates-same :
      {m m' : Exec (W × S) A} {n : Exec (W × T) A} → m ≡ m' → Simulates R m' n → Simulates R m n
  Simulates-same e p = rw e p

  pub Simulates-on_left : (m : Exec W A) → Simulates R (on_left m) (on_left m)
  unfolding on_left
  Simulates-on_left m = record { at = λ w s t h. (refl, refl, h) }

  pub Simulates-when :
      (b : Bool) {m m' : Exec (W × S) A} {n n' : Exec (W × T) A}
      → Simulates R m n
      → Simulates R m' n'
      → Simulates R (when b perform m otherwise m') (when b perform n otherwise n')
  unfolding when◌perform◌otherwise◌
  Simulates-when true p q = p
  Simulates-when false p q = q

module _ {W S T A B : Type 0} {R : S → T → Type 0} where
  Agree-continue :
      (r : Result A) (f : A → Exec (W × S) B) (g : A → Exec (W × T) B) (w : W) (s : S) (t : T)
      → R s t
      → ((a : A) → Simulates R (f a) (g a))
      → Agree R (continue r f (w, s)) (continue r g (w, t))
  Agree-continue (ok a) f g w s t h p = (p a).at w s t h
  Agree-continue (raised e) f g w s t h p = (refl, refl, h)

  Agree-after :
      (r q : Result A) (f : A → Exec (W × S) B) (g : A → Exec (W × T) B) (w v : W) (s : S) (t : T)
      → (r ≡ q)
      → (w ≡ v)
      → R s t
      → ((a : A) → Simulates R (f a) (g a))
      → Agree R (continue r f (w, s)) (continue q g (v, t))
  Agree-after r q f g w v s t e k h p =
      subst {A = Result A × W} (λ c. Agree R (continue r f (w, s)) (continue c.0 g (c.1, t)))
        (λ i. (e i, k i)) (Agree-continue r f g w s t h p)

  pub Simulates-bind :
      {m : Exec (W × S) A} {n : Exec (W × T) A} (f : A → Exec (W × S) B) (g : A → Exec (W × T) B)
      → Simulates R m n
      → ((a : A) → Simulates R (f a) (g a))
      → Simulates R (m >>= f) (n >>= g)
  unfolding ◌>>=◌
  Simulates-bind f g p q = record {
    at = λ w s t h. let made = p.at w s t h in Agree-after _ _ f g _ _ _ _ made.0 made.1 made.2 q;
  }
