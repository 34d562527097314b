-- ===== src/Tests/Scripts.antt =====
-- The script on an issue without a runtime to work in, and with one.
use syndicate.Prelude.{◌≡◌, ◌⊎◌, true, false, some, none, str_eq, if◌then◌else◌}
use syndicate.Exec.{ok, pure}
use syndicate.Exec.Yields.{Returned}
use syndicate.Engine.{reference, reference-IsLanggraph}
use syndicate.Scripts.RunRealIssue.{Namespace, Environ, Rendering, blocked, no_url, main}
use syndicate.Scripts.Report.{IsReport, main_lem}
use syndicate.Tests.World.{demo, empty_world}

abbrev arguments : Namespace
arguments = record {
  repo = "o/r";
  number = 7;
  title = "The parser fails";
  body = some "It fails on an empty input.";
  body_file = none;
  workspace_dir = "/work";
}

abbrev plain : Rendering
plain = record { analysis = λ a. "None"; ticket = λ t. "None"; status = λ s. "None" }

abbrev environ : Environ
environ key =
    if str_eq key "ANTHROPIC_API_KEY"
    then some "key"
    else if str_eq key "SYNDICATE_RUNTIME_URL"
    then some "http://localhost"
    else none

main_lem_example :
    ((true ≡ false)
      × ((main reference (λ e. demo) pure plain environ arguments empty_world).1 ≡ empty_world)
      × ((main reference (λ e. demo) pure plain environ arguments empty_world).0
          ≡ ok (blocked no_url)))
    ⊎ ((true ≡ true)
        × Returned
            (IsReport reference reference-IsLanggraph (λ e. demo) pure plain environ arguments)
            (main reference (λ e. demo) pure plain environ arguments empty_world).0)
main_lem_example =
    main_lem reference reference-IsLanggraph (λ e. demo) pure plain environ arguments empty_world
