-- ===== src/Exec/Within.antt =====
-- Costs: a quantity of the world that grows by at most a budget, with what a result leaves over.
use syndicate.Prelude.{ℕ, ◌+◌, ◌≤◌, ◌≡◌, refl, Bool, true, false, arith}
use syndicate.Exec.Yields.{Returned, Yields}
use syndicate.Exec.{
  Exec, Result, ok, raised, Exception, pure, raise, continue, when◌perform◌otherwise◌, ◌>>=◌,
  trying,
}

module _ {A : Type 0} where
  -- What is left over: nothing after an exception.
  abbrev pub left : (A → ℕ) → Result A → ℕ
  left rest (ok a) = rest a
  left rest (raised e) = 0

-- Run in any world, `m` spends the budget but for what is left over.
pub record Within {W A : Type 0} (tally : W → ℕ) (budget : ℕ) (rest : A → ℕ) (m : Exec W A)
    : Type 0 where
  pub at : (w : W) → tally (m w).1 + left rest (m w).0 ≤ tally w + budget

module _ {W A : Type 0} {tally : W → ℕ} {rest : A → ℕ} where
  pub Within-pure : (budget : ℕ) (a : A) → rest a ≤ budget → Within tally budget rest (pure a)
  unfolding pure
  Within-pure budget a h = record { at = λ w. omega arith }

  pub Within-raise : (budget : ℕ) (e : Exception) → Within tally budget rest (raise e)
  unfolding raise
  Within-raise budget e = record { at = λ w. omega arith }

  pub Within-when :
      (budget : ℕ) (b : Bool) (m n : Exec W A)
      → (b ≡ true → Within tally budget rest m)
      → (b ≡ false → Within tally budget rest n)
      → Within tally budget rest (when b perform m otherwise n)
  unfolding when◌perform◌otherwise◌
  Within-when budget true m n p q = p refl
  Within-when budget false m n p q = q refl

module _ {W A B : Type 0} {tally : W → ℕ} {rest : B → ℕ} where
  left-continue :
      (middle : A → ℕ) (r : Result A) (f : A → Exec W B) (w : W) (total : ℕ)
      → ((a : A) → Within tally (middle a) rest (f a))
      → tally w + left middle r ≤ total
      → tally (continue r f w).1 + left rest (continue r f w).0 ≤ total
  left-continue middle (ok a) f w total h k = omega (arith, (h a).at w)
  left-continue middle (raised e) f w total h k = omega arith

  -- What the first part leaves over is the budget of the second.
  pub Within-bind :
      (budget : ℕ) (middle : A → ℕ) (m : Exec W A) (f : A → Exec W B)
      → Within tally budget middle m
      → ((a : A) → Within tally (middle a) rest (f a))
      → Within tally budget rest (m >>= f)
  unfolding ◌>>=◌
  Within-bind budget middle m f hm hf = record {
    at = λ w. left-continue middle (m w).0 f (m w).1 _ hf (hm.at w);
  }

  -- The first part is free.
  pub Within-bind_free :
      (budget : ℕ) (m : Exec W A) (f : A → Exec W B)
      → Within tally budget (λ a. budget) m
      → ((a : A) → Within tally budget rest (f a))
      → Within tally budget rest (m >>= f)
  Within-bind_free budget m f hm hf = Within-bind budget (λ a. budget) m f hm hf

-- A computation that leaves the quantity as it is.
pub record IsFree {W A : Type 0} (tally : W → ℕ) (m : Exec W A) : Type 0 where
  pub at : (w : W) → tally (m w).1 ≤ tally w

module _ {A : Type 0} where
  left-le : (r : Result A) (budget : ℕ) → left (λ a. budget) r ≤ budget
  left-le (ok a) budget = omega arith
  left-le (raised e) budget = omega arith

module _ {W A : Type 0} {tally : W → ℕ} where
  pub Within-free :
      (budget : ℕ) (m : Exec W A) → IsFree tally m → Within tally budget (λ a. budget) m
  Within-free budget m h = record { at = λ w. omega (arith, h.at w, left-le (m w).0 budget) }

  pub IsFree-pure : (a : A) → IsFree tally (pure a)
  unfolding pure
  IsFree-pure a = record { at = λ w. omega arith }

  pub IsFree-raise : (e : Exception) → IsFree {A = A} tally (raise e)
  unfolding raise
  IsFree-raise e = record { at = λ w. omega arith }

  pub IsFree-when :
      (b : Bool) (m n : Exec W A)
      → IsFree tally m
      → IsFree tally n
      → IsFree tally (when b perform m otherwise n)
  unfolding when◌perform◌otherwise◌
  IsFree-when true m n p q = p
  IsFree-when false m n p q = q

module _ {W A B : Type 0} {tally : W → ℕ} where
  free_continue :
      (r : Result A) (f : A → Exec W B) (w : W)
      → ((a : A) → IsFree tally (f a))
      → tally (continue r f w).1 ≤ tally w
  free_continue (ok a) f w h = (h a).at w
  free_continue (raised e) f w h = omega arith

  pub IsFree-trying :
      (m : Exec W A) (handler : Result A → Exec W B)
      → IsFree tally m
      → ((r : Result A) → IsFree tally (handler r))
      → IsFree tally (trying m handler)
  unfolding trying
  IsFree-trying m handler hm hh = record {
    at = λ w. omega (arith, hm.at w, (hh (m w).0).at (m w).1);
  }

  pub IsFree-bind :
      (m : Exec W A) (f : A → Exec W B)
      → IsFree tally m
      → ((a : A) → IsFree tally (f a))
      → IsFree tally (m >>= f)
  unfolding ◌>>=◌
  IsFree-bind m f hm hf = record {
    at = λ w. omega (arith, hm.at w, free_continue (m w).0 f (m w).1 hf);
  }

module _ {W A B : Type 0} {tally : W → ℕ} {Q : A → Type 0} where
  Returned-continue :
      (r : Result A) (f : A → Exec W B) (w : W)
      → Returned Q r
      → ((a : A) → Q a → IsFree tally (f a))
      → tally (continue r f w).1 ≤ tally w
  Returned-continue (ok a) f w q h = (h a q).at w
  Returned-continue (raised e) f w q h = omega arith

  -- The second part may use what the first yields.
  pub IsFree-bind-Yields :
      (m : Exec W A) (f : A → Exec W B)
      → Yields Q m
      → IsFree tally m
      → ((a : A) → Q a → IsFree tally (f a))
      → IsFree tally (m >>= f)
  unfolding ◌>>=◌
  IsFree-bind-Yields m f y hm hf = record {
    at = λ w. omega (arith, hm.at w, Returned-continue (m w).0 f (m w).1 (y.at w) hf);
  }

module _ {W A B : Type 0} {tally : W → ℕ} {rest : B → ℕ} {Q : A → Type 0} where
  yields_continue :
      (budget : ℕ) (r : Result A) (f : A → Exec W B) (w : W)
      → Returned Q r
      → ((a : A) → Q a → Within tally budget rest (f a))
      → tally (continue r f w).1 + left rest (continue r f w).0 ≤ tally w + budget
  yields_continue budget (ok a) f w q h = (h a q).at w
  yields_continue budget (raised e) f w q h = omega arith

  pub Within-bind-Yields :
      (budget : ℕ) (m : Exec W A) (f : A → Exec W B)
      → Yields Q m
      → IsFree tally m
      → ((a : A) → Q a → Within tally budget rest (f a))
      → Within tally budget rest (m >>= f)
  unfolding ◌>>=◌
  Within-bind-Yields budget m f y hm hf = record {
    at = λ w. omega (arith, hm.at w, yields_continue budget (m w).0 f (m w).1 (y.at w) hf);
  }

module _ {A : Type 0} {rest more : A → ℕ} where
  left_mono : (r : Result A) → ((a : A) → rest a ≤ more a) → left rest r ≤ left more r
  left_mono (ok a) h = h a
  left_mono (raised e) h = omega arith

module _ {W A : Type 0} {tally : W → ℕ} {rest more : A → ℕ} where
  pub Within-weaken :
      (budget : ℕ) (m : Exec W A)
      → ((a : A) → rest a ≤ more a)
      → Within tally budget more m
      → Within tally budget rest m
  Within-weaken budget m h x = record { at = λ w. omega (arith, x.at w, left_mono (m w).0 h) }

module _ {A : Type 0} where
  left_more : (r : Result A) (n : ℕ) → left (λ a. n) r ≤ left (λ a. 0) r + n
  left_more (ok a) n = omega arith
  left_more (raised e) n = omega arith

module _ {W A : Type 0} {tally : W → ℕ} where
  -- What is added to the budget is left over.
  pub Within-more :
      (spent n : ℕ) {m : Exec W A}
      → Within tally spent (λ a. 0) m
      → Within tally (spent + n) (λ a. n) m
  Within-more spent n {m} x = record { at = λ w. omega (arith, x.at w, left_more (m w).0 n) }

  pub Within-budget :
      {budget budget' : ℕ} {rest : A → ℕ} {m : Exec W A}
      → budget ≤ budget'
      → Within tally budget rest m
      → Within tally budget' rest m
  Within-budget h x = record { at = λ w. omega (arith, x.at w) }

pub ruleset free_rules = (IsFree-pure, IsFree-raise, IsFree-when, IsFree-bind)
