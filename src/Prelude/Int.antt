-- ===== src/Prelude/Int.antt =====
-- Signed integers over the native numbers: process exit codes and the escalation budget.
use Prim.Native.Nat.{ℕ, zero, suc}
use Prim.Native.String.{String, ◌++◌ as ◌<>◌}
use mathlib.Core.Bool.{Bool, true, false}
use syndicate.Prelude.Tests.{ltb}
use syndicate.Prelude.Text.{str}

-- `negsuc n` is -(n + 1).
pub data ℤ : Type 0 where
  pos : ℕ → ℤ
  negsuc : ℕ → ℤ

-- `code == 0`
abbrev pub is_zero : ℤ → Bool
is_zero (pos zero) = true
is_zero (pos (suc n)) = false
is_zero (negsuc n) = false

-- `count > bound`
abbrev pub exceeds : ℕ → ℤ → Bool
exceeds count (pos bound) = ltb bound count
exceeds count (negsuc bound) = true

unfoldable pub str_int : ℤ → String
unfolding str
str_int (pos n) = str n
str_int (negsuc n) = "-" <> str (suc n)
