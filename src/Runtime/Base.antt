-- ===== src/Runtime/Base.antt =====
-- syndicate/runtime/base.py: the interface of a sandbox backend. `W` is the world outside of the
-- program, and a timeout is in milliseconds.
use syndicate.Prelude.{ℕ, ℤ, String, Bool, Option}
use syndicate.Exec.{Exec}

pub record ActionResult : Type 0 where
  pub exit_code : ℤ
  pub output : String

-- `is_mock` is `isinstance(client, MockRuntimeClient)`.
pub record RuntimeClient (W : Type 0) : Type 0 where
  pub is_mock : Bool
  pub run_action : String → Option String → Option ℕ → Exec W ActionResult
  pub read_file : String → Exec W String
  pub write_file : String → String → Exec W (Unit {0})
  pub edit_file : String → String → String → Exec W (Unit {0})
