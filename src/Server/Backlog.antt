-- ===== src/Server/Backlog.antt =====
-- A bounded queue that numbers its elements (the backlog of server/registry.py) holds the last ones.
use syndicate.Prelude.{
  ℕ, zero, suc, ◌+◌, ◌-◌, ◌≤◌, min, ◌≡◌, refl, ap, ◌∙◌, true, false, Option, some, List, [], ◌∷◌,
  ◌++◌, map, leb, Bool-cases, length, length-append, arith,
}
use mathlib.Core.List.{map-append}
use mathlib.Core.Logic.{inl, inr}
use syndicate.Server.Registry.{push, shifted}

-- The `n` numbers after `k`.
unfoldable pub numbers : ℕ → ℕ → List (Option ℕ)
numbers k zero = []
numbers k (suc n) = some (k + 1) ∷ numbers (k + 1) n

numbers_snoc : (k n : ℕ) → numbers k n ++ (some (k + n + 1) ∷ []) ≡ numbers k (suc n)
unfolding numbers
numbers_snoc k zero = let e : k + zero + 1 ≡ k + 1 = omega arith in rw e refl
numbers_snoc k (suc n) =
    let e : k + suc n + 1 ≡ k + 1 + n + 1 = omega arith in
    rw e (ap (λ l. some (k + 1) ∷ l) (numbers_snoc (k + 1) n))

module _ {ℓ} {A : Type ℓ} (number : A → Option ℕ) where
  -- The elements carry the numbers after `k`.
  abbrev Numbered : ℕ → List A → Type 0
  Numbered k xs = map number xs ≡ numbers k (length xs)

  Numbered-snoc :
      (k : ℕ) (xs : List A) (x : A)
      → Numbered k xs
      → number x ≡ some (k + length xs + 1)
      → Numbered k (xs ++ (x ∷ []))
  Numbered-snoc k xs x h e =
      let n : length (xs ++ (x ∷ [])) ≡ suc (length xs) =
        omega (arith, length-append xs (x ∷ [])) in
      rw (map-append number xs (x ∷ []), h, e, n) (numbers_snoc k (length xs))

  Numbered-shifted : (k : ℕ) (x : A) (xs : List A) → Numbered k (x ∷ xs) → Numbered (k + 1) xs
  unfolding numbers
  Numbered-shifted k x xs h = ap shifted h

  -- The queue after `count` elements, numbered from 1: the last ones, at most `maxlen`.
  pub record IsTail (maxlen count : ℕ) (xs : List A) : Type 0 where
    pub kept : length xs ≡ min maxlen count
    pub numbered : map number xs ≡ numbers (count - length xs) (length xs)

  pub nil-IsTail : (maxlen : ℕ) → IsTail maxlen 0 []
  unfolding numbers
  nil-IsTail maxlen = record { kept = omega arith; numbered = refl }

  pub push-IsTail :
      (maxlen count : ℕ) (xs : List A) (x : A)
      → 1 ≤ maxlen
      → IsTail maxlen count xs
      → number x ≡ some (count + 1)
      → IsTail maxlen (count + 1) (push maxlen xs x)
  unfolding push
  push-IsTail maxlen count xs x pos t e = elim (Bool-cases (leb maxlen (length xs))) [
    | inl full ↦ rw full (overwritten xs t full)
    | inr free ↦ rw free (grown free)
  ]
    where
      grown : leb maxlen (length xs) ≡ false → IsTail maxlen (count + 1) (xs ++ (x ∷ []))
      grown free =
          let n : length (xs ++ (x ∷ [])) ≡ length xs + 1 = length-append xs (x ∷ []) in
          let k : count + 1 - length (xs ++ (x ∷ [])) ≡ count - length xs = omega (arith, n) in
          let j : count + 1 ≡ count - length xs + length xs + 1 = ground (arith, t.kept) in
          record {
            kept = ground (arith, n, t.kept);
            numbered = rw k (Numbered-snoc (count - length xs) xs x t.numbered (e ∙ ap some j));
          }

      overwritten :
          (ys : List A)
          → IsTail maxlen count ys
          → leb maxlen (length ys) ≡ true
          → IsTail maxlen (count + 1) (shifted ys ++ (x ∷ []))
      overwritten [] t full = absurd (ground (arith, pos))
      overwritten (y ∷ ys) t full =
          let n : length (ys ++ (x ∷ [])) ≡ length ys + 1 = length-append ys (x ∷ []) in
          let k : count + 1 - length (ys ++ (x ∷ [])) ≡ count - suc (length ys) + 1 =
            ground (arith, n, t.kept) in
          let j : count + 1 ≡ count - suc (length ys) + 1 + length ys + 1 =
            ground (arith, t.kept) in
          record {
            kept = ground (arith, n, t.kept);
            numbered = rw k (
                Numbered-snoc (count - suc (length ys) + 1) ys x
                  (Numbered-shifted (count - suc (length ys)) y ys t.numbered) (e ∙ ap some j));
          }
