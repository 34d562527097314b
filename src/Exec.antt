-- ===== src/Exec.antt =====
-- Python code that acts on the outside world and may raise. What was done before a raise stays
-- done, so the world comes back beside the exception too. Awaits of one task run in order.
pub mod Yields
pub mod Within
pub mod Invert
pub mod Same
pub mod Beside
pub mod Simulates
pub mod Total
use Prim.Native.String.{String}
use mathlib.Core.Bool.{Bool, true, false}

-- The exceptions that the program raises or catches; `external` stands for any other one.
pub data Exception : Type 0 where
  file_not_found value_error runtime_error key_error external : String → Exception

pub data Result {ℓ} (A : Type ℓ) : Type ℓ where
  ok : A → Result A
  raised : Exception → Result A

abbrev pub Exec {ℓ} : Type ℓ → Type ℓ → Type ℓ
Exec W A = W → Result A × W

module _ {ℓ} {W A : Type ℓ} where
  unfoldable pub pure : A → Exec W A
  pure a w = (ok a, w)

  unfoldable pub raise : Exception → Exec W A
  raise e w = (raised e, w)

  -- `if` between two computations; a function of its own, so that proofs can keep it shut.
  infix 1 when◌perform◌otherwise◌
  unfoldable pub when◌perform◌otherwise◌ : Bool → Exec W A → Exec W A → Exec W A
  when true perform m otherwise n = m
  when false perform m otherwise n = n

module _ {ℓ} {W A B : Type ℓ} where
  abbrev pub continue : Result A → (A → Exec W B) → Exec W B
  continue (ok a) f w = f a w
  continue (raised e) f w = (raised e, w)

  infixl 10 ◌>>=◌ ◌>>◌
  -- Opening this opens `pure`, `raise` and `when` too.
  unfoldable pub ◌>>=◌ : Exec W A → (A → Exec W B) → Exec W B
  unfolding pure raise when◌perform◌otherwise◌
  ◌>>=◌ m f w = continue (m w).0 f (m w).1

  abbrev pub ◌>>◌ : Exec W A → Exec W B → Exec W B
  m >> n = m >>= λ _. n

  -- `try`: the handler is given the result, and goes on from the world that was left.
  unfoldable pub trying : Exec W A → (Result A → Exec W B) → Exec W B
  trying m handler w = handler (m w).0 (m w).1
