-- ===== src/Tests/Factory.antt =====
-- The factory for a URL with a slash at its end, a port and no other variable.
use syndicate.Prelude.{◌≡◌, ◌⊎◌, String, true, false, Option, some, none, str_eq, if◌then◌else◌}
use syndicate.Exec.{ok, raised, runtime_error}
use syndicate.Runtime.Factory.{Parts, get_runtime_client}
use syndicate.Runtime.Factory.Chosen.{IsServerOrRaised, get_runtime_client_lem}
use syndicate.Tests.World.{World, git_client}

abbrev environ : String → Option String
environ key =
    if str_eq key "SYNDICATE_RUNTIME_URL"
    then some "http://localhost/"
    else if str_eq key "SYNDICATE_RUNTIME_PORT"
    then some "8000"
    else none

abbrev local : Parts World
local = record {
  environ = environ;
  port = λ url. ok none;
  float = λ text. ok 300000;
  mock = record git_client { is_mock = true };
  open_hands = λ url key timeout. ok git_client;
}

get_runtime_client_lem_example :
    ((false ≡ true) × (get_runtime_client local ≡ ok local.mock))
    ⊎ ((false ≡ false)
        × (((true ≡ false)
              × ((text : String) × (get_runtime_client local ≡ raised (runtime_error text))))
            ⊎ ((true ≡ true) × IsServerOrRaised local (get_runtime_client local))))
get_runtime_client_lem_example = get_runtime_client_lem local
