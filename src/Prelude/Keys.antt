-- ===== src/Prelude/Keys.antt =====
-- The keys of a dictionary are all different.
use mathlib.Core.Logic.{inl, inr, ◌≢◌, ◌∨₁◌, ∨₁_prop}
use mathlib.Core.HLevel.{⊥_prop}
use mathlib.Core.Logic.Or
use mathlib.Core.Path.{◌≡◌, sym, subst, ◌∙◌}
use mathlib.Core.Bool.{false, false≢true}
use mathlib.Core.List.{
  List, [], ◌∷◌, Mem, Nodup, Pairwise, Pairwise-singleton, eq-or-mem_of_mem-cons, mem-cons_self,
  mem-cons_of_mem,
}
use Prim.Native.String.{String}
use text.Mathlib.Text.{◌==◌ as str_eq}
use text.Mathlib.TextEquality.{eq_iff}
use syndicate.Prelude.Tests.{Bool-cases}
use syndicate.Prelude.Maps.{put}

pub differ : (s t : String) → str_eq s t ≡ false → s ≢ t
differ s t h p = false≢true (sym h ∙ (eq_iff s t).1 p)

module _ {ℓ} {A : Type ℓ} where
  abbrev pub keys : List (String × A) → List String
  keys [] = []
  keys ((k, a) ∷ d) = k ∷ keys d

  mem_keys-put :
      (j k : String) (a : A) (d : List (String × A))
      → Mem j (keys (put k a d))
      → (j ≡ k) ∨₁ Mem j (keys d)
  unfolding put
  mem_keys-put j k a [] m = eq-or-mem_of_mem-cons m
  mem_keys-put j k a ((i, b) ∷ d) m = elim (Bool-cases (str_eq i k)) [
    | inl same ↦
        Or.elim ∨₁_prop (eq-or-mem_of_mem-cons (rw same at m)) (λ p. ∣ inl p ∣₁)
          (λ n. ∣ inr (mem-cons_of_mem i n) ∣₁)
    | inr other ↦
        Or.elim ∨₁_prop (eq-or-mem_of_mem-cons (rw other at m))
          (λ p. ∣ inr (subst (λ t. Mem t (i ∷ keys d)) (sym p) mem-cons_self) ∣₁)
          (λ n.
            Or.elim ∨₁_prop (mem_keys-put j k a d n) (λ p. ∣ inl p ∣₁)
              (λ r. ∣ inr (mem-cons_of_mem i r) ∣₁))
  ]

  pub put-Nodup :
      (k : String) (a : A) (d : List (String × A)) → Nodup (keys d) → Nodup (keys (put k a d))
  unfolding put
  put-Nodup k a [] h = Pairwise-singleton _ k
  put-Nodup k a ((i, b) ∷ d) (Pairwise.cons all rest) = elim (Bool-cases (str_eq i k)) [
    | inl same ↦
        rw same (subst (λ t. Nodup (t ∷ keys d)) ((eq_iff i k).0 same) (Pairwise.cons all rest))
    | inr other ↦ rw other (
        Pairwise.cons
          (λ j m q.
            Or.elim ⊥_prop (mem_keys-put j k a d m) (λ p. differ i k other (q ∙ p))
              (λ n. all j n q))
          (put-Nodup k a d rest))
  ]
