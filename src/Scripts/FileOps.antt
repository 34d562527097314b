-- ===== src/Scripts/FileOps.antt =====
-- scripts/verify_runtime_fileops.py and scripts/verify_runtime_echo.py. The constructors of the
-- clients, and the environment, are those that the factory takes. `aclose` closes the client.
pub mod Agreement
pub mod Passed
use syndicate.Prelude.{String, ◌<>◌, none, is_zero, str_eq}
use syndicate.Exec.{
  Exec, Result, ok, raised, Exception, file_not_found, pure, raise, ◌>>=◌, ◌>>◌, trying,
}
use syndicate.Runtime.Base.{RuntimeClient}
use syndicate.Runtime.Factory.{Parts, get_runtime_client}
use syndicate.Server.Attempts.{contains}
use syndicate.Scripts.Checks.{assertion_error, require}
use syndicate.Scripts.RunRealIssue.{without_key}

abbrev pub check_path : String
check_path = "/tmp/syndicate_fileops_check.txt"

abbrev pub missing_path : String
missing_path = "/tmp/syndicate_fileops_missing.txt"

abbrev pub original : String
original = "hello syndicate fileops"

abbrev pub replaced : String
replaced = "hello syndicate fileops, edited"

abbrev pub marker : String
marker = "syndicate_runtime_ok"

-- `SYNDICATE_MOCK_CLIENT` is removed from the environment.
abbrev pub without_mock : {W : Type 0} → Parts W → Parts W
without_mock parts = record parts { environ = without_key "SYNDICATE_MOCK_CLIENT" parts.environ }

module _ {W : Type 0} where
  -- `try: ... finally: ...`
  unfoldable pub finally : {A : Type 0} → Exec W A → Exec W (Unit {0}) → Exec W A
  finally m last = trying m (λ r. last >>= λ done. λ w. (r, w))

  abbrev pub obtained : Result (RuntimeClient W) → Exec W (RuntimeClient W)
  obtained (ok client) = pure client
  obtained (raised x) = raise x

  -- `except FileNotFoundError: ... else: raise AssertionError(...)`
  abbrev pub expect_missing : Result String → Exec W (Unit {0})
  expect_missing (ok content) = raise assertion_error
  expect_missing (raised (file_not_found path)) = pure tt
  expect_missing (raised x) = raise x

  unfoldable pub file_checks : RuntimeClient W → Exec W (Unit {0})
  file_checks client = do
    client.write_file check_path original
    created ← client.read_file check_path
    require (str_eq created original)
    client.edit_file check_path "fileops" "fileops, edited"
    edited ← client.read_file check_path
    require (str_eq edited replaced)
    trying (client.read_file missing_path) expect_missing

  unfoldable pub echo_checks : RuntimeClient W → Exec W (Unit {0})
  echo_checks client = do
    result ← client.run_action ("echo " <> marker) none none
    require (is_zero result.exit_code)
    require (contains marker result.output)

module _ {W : Type 0} (parts : Parts W) (aclose : Exec W (Unit {0})) where
  unfoldable pub file_ops_main : Exec W (Unit {0})
  file_ops_main = do
    client ← obtained (get_runtime_client (without_mock parts))
    finally (file_checks client) aclose

  unfoldable pub echo_main : Exec W (Unit {0})
  echo_main = do
    client ← obtained (get_runtime_client (without_mock parts))
    finally (echo_checks client) aclose
