-- ===== src/Runtime/Factory.antt =====
-- syndicate/runtime/factory.py: the choice of the sandbox adapter by the environment. `urlparse` and
-- `float` are parameters.
pub mod Chosen
use Prim.Native.Char.{code}
use syndicate.Prelude.{
  ℕ, ◌≡◌, refl, String, ◌<>◌, Bool, false, Option, none, some, truthy_text, ◌==◌, str_eq,
  if◌then◌else◌,
}
use syndicate.Exec.{Result, ok, raised, runtime_error}
use syndicate.Runtime.Base.{RuntimeClient}

-- `port` is `urlparse(url).port`, with the ValueError for a port that is no number or out of range, and
-- `float` is in milliseconds, with an exception for a text that is no number. The constructors of the
-- adapters are `mock` and `open_hands url session_api_key timeout`, of which the second may raise.
pub record Parts (W : Type 0) : Type 0 where
  pub environ : String → Option String
  pub port : String → Result (Option ℕ)
  pub float : String → Result ℕ
  pub mock : RuntimeClient W
  pub open_hands : String → Option String → ℕ → Result (RuntimeClient W)

-- One more character in front of a text without trailing slashes.
abbrev before_slashes : String → String → String → String
before_slashes String.[] kept slash = slash
before_slashes (String.◌∷◌ c s) kept slash = kept

-- `url.rstrip('/')`
unfoldable pub rstrip_slash : String → String
rstrip_slash String.[] = ""
rstrip_slash (String.◌∷◌ c s) =
    let rest = rstrip_slash s in
    before_slashes rest (String.◌∷◌ c rest) (if code c == 47 then "" else String.◌∷◌ c "")

abbrev pub or_default : Option String → String → String
or_default none other = other
or_default (some s) other = s

abbrev pub text_of : Option String → String
text_of none = ""
text_of (some s) = s

module _ {W : Type 0} (parts : Parts W) where
  abbrev pub port_added : String → Result (Option ℕ) → Result String
  port_added url (raised x) = raised x
  port_added url (ok (some port)) = ok url
  port_added url (ok none) = ok (url <> ":" <> text_of (parts.environ "SYNDICATE_RUNTIME_PORT"))

  -- The port of the URL is asked for only if a port is given.
  abbrev pub with_port : String → Result String
  with_port url =
      if truthy_text (parts.environ "SYNDICATE_RUNTIME_PORT")
      then port_added url (parts.port url)
      else ok url

  unfoldable pub runtime_base_url : Result String
  unfolding rstrip_slash
  runtime_base_url =
      if truthy_text (parts.environ "SYNDICATE_RUNTIME_URL")
      then with_port (rstrip_slash (text_of (parts.environ "SYNDICATE_RUNTIME_URL")))
      else raised (
          runtime_error
            "SYNDICATE_RUNTIME_URL is not set. It must point at a running OpenHands agent server, e.g. http://localhost:60000.")

  abbrev pub with_timeout : String → Result ℕ → Result (RuntimeClient W)
  with_timeout url (raised x) = raised x
  with_timeout url (ok timeout) =
      parts.open_hands url (parts.environ "SYNDICATE_RUNTIME_SESSION_API_KEY") timeout

  abbrev pub at_url : Result String → Result (RuntimeClient W)
  at_url (raised x) = raised x
  at_url (ok url) =
      with_timeout url
        (parts.float (or_default (parts.environ "SYNDICATE_RUNTIME_TIMEOUT_SECONDS") "300"))

  abbrev pub is_one : Option String → Bool
  is_one none = false
  is_one (some s) = str_eq s "1"

  unfoldable pub get_runtime_client : Result (RuntimeClient W)
  unfolding runtime_base_url
  get_runtime_client =
      if is_one (parts.environ "SYNDICATE_MOCK_CLIENT")
      then ok parts.mock
      else at_url runtime_base_url

rstrip_slash_example : rstrip_slash "http://a/b//" ≡ "http://a/b"
unfolding rstrip_slash
rstrip_slash_example = refl
