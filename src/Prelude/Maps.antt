-- ===== src/Prelude/Maps.antt =====
-- A dictionary with texts for keys, in the order of insertion.
use text.Mathlib.TextPositions.{eq_refl}
use text.Mathlib.Text.{◌==◌ as str_eq}
use text.Mathlib.TextEquality.{eq_iff}
use Prim.Native.String.{String}
use mathlib.Core.Path.{◌≡◌, refl, ap, ◌∙◌}
use mathlib.Core.Logic.{inl, inr}
use mathlib.Core.Bool.{false}
use mathlib.Core.Option.{Option, none, some}
use mathlib.Core.List.{List, [], ◌∷◌}
use syndicate.Prelude.Tests.{if◌then◌else◌, Bool-cases}

module _ {ℓ} {A : Type ℓ} where
  -- `d[k] = a`
  unfoldable pub put : String → A → List (String × A) → List (String × A)
  put k a [] = (k, a) ∷ []
  put k a ((j, b) ∷ d) = if str_eq j k then (k, a) ∷ d else (j, b) ∷ put k a d

  -- `d.get(k)`
  unfoldable pub find : String → List (String × A) → Option A
  find k [] = none
  find k ((j, b) ∷ d) = if str_eq j k then some b else find k d

  pub find-put : (k : String) (a : A) (d : List (String × A)) → find k (put k a d) ≡ some a
  unfolding find put
  find-put k a [] = rw (eq_refl k) refl
  find-put k a ((j, b) ∷ d) =
      let rest = find-put k a d in
      elim (Bool-cases (str_eq j k)) [ inl e ↦ rw (e, eq_refl k) refl | inr e ↦ rw (e, e) rest ]

  pub find-put-other :
      (k i : String) (a : A) (d : List (String × A))
      → str_eq i k ≡ false
      → find k (put i a d) ≡ find k d
  unfolding find put
  find-put-other k i a [] o = rw o refl
  find-put-other k i a ((j, b) ∷ d) o =
      let rest = find-put-other k i a d o in
      elim (Bool-cases (str_eq j i)) [
        | inl e ↦
            let other : str_eq j k ≡ false = ap (λ t. str_eq t k) ((eq_iff j i).0 e) ∙ o in
            rw (e, o, other) refl
        | inr e ↦ rw e (elim (Bool-cases (str_eq j k)) [ inl f ↦ rw f refl | inr f ↦ rw f rest ])
      ]
