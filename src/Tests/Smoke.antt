-- ===== src/Tests/Smoke.antt =====
-- The scripts over small runtimes: a mock, one that works, and one that commits.
use syndicate.Prelude.{◌≡◌, refl, pos, false, true, strip}
use syndicate.Exec.{ok, pure, ◌>>=◌, when◌perform◌otherwise◌, trying}
use syndicate.Exec.Yields.{Returned}
use syndicate.Exec.Total.{Total-pure}
use syndicate.Runtime.Base.{RuntimeClient}
use syndicate.Host.{Host}
use syndicate.Engine.{reference, reference-IsLanggraph}
use syndicate.Scripts.SmokeMock
use syndicate.Scripts.MockPath.{IsMockClient, main-ok}
use syndicate.Scripts.SmokeReal
use syndicate.Scripts.SmokePassed.{IsPassed, main-IsPassed}
use syndicate.Scripts.ExecutorLoop.Scenarios.{scenario_context}
use syndicate.Scripts.ExecutorLoop.{seed_calc_project}
use syndicate.Scripts.ExecutorLoop.Context.{IsWorking, first, later, ticket, scenario_context-ok}
use syndicate.Scripts.Checks.{require}
use syndicate.StubLlm.{tool_turn, complete_turn}
use syndicate.Nodes.Script.{play}
use syndicate.Nodes.Tools.{run_tool, run_bash, run_editor, catching}
use syndicate.Nodes.Executor.{run_fast_checks, run_checks}
use syndicate.Tests.World.{World, demo, git_client, empty_world}
use syndicate.Tests.Replay.{stubs}

abbrev mock : RuntimeClient World
mock = record git_client {
  is_mock = true;
  run_action = λ action cwd timeout. pure (record { exit_code = pos 0; output = "[mock]" });
}

abbrev mock_host : Host World
mock_host = record demo { get_runtime_client = pure mock }

mock-IsMockClient : IsMockClient mock
mock-IsMockClient = record { mock = refl; acts = λ action cwd timeout. Total-pure _ tt }

main-ok_example : (SmokeMock.main reference mock_host empty_world).0 ≡ ok tt
main-ok_example =
    main-ok reference reference-IsLanggraph mock_host (Total-pure mock mock-IsMockClient)
      empty_world

main-IsPassed_example :
    Returned
      (λ done.
        IsPassed reference reference-IsLanggraph demo "/work" empty_world
          (SmokeReal.main reference demo "/work" empty_world).1)
      (SmokeReal.main reference demo "/work" empty_world).0
main-IsPassed_example = main-IsPassed reference reference-IsLanggraph demo "/work" empty_world

abbrev listing : RuntimeClient World
listing = record mock { is_mock = false }

abbrev working_host : Host World
working_host = record demo { get_runtime_client = pure listing }

seeded : seed_calc_project listing "/step7_5/context" empty_world ≡ (ok tt, empty_world)
unfolding seed_calc_project require ◌>>=◌ when◌perform◌otherwise◌ pure strip
seeded = refl

listing-IsWorking :
    IsWorking working_host
      (first working_host "/step7_5" true listing)
      (later working_host "/step7_5" true listing)
      (ticket working_host "/step7_5" true listing)
      empty_world
unfolding pure play run_tool run_bash run_editor catching run_fast_checks run_checks
    when◌perform◌otherwise◌ tool_turn ◌>>=◌ trying complete_turn
listing-IsWorking = record {
  client = listing;
  opened = empty_world;
  got = refl;
  real = refl;
  summary = "done";
  edited = empty_world;
  played = refl;
  check = _;
  checked = empty_world;
  ran = refl;
  passes = refl;
}

scenario_context-ok_example :
    (scenario_context working_host "/step7_5" true listing (empty_world, stubs)).0 ≡ ok tt
scenario_context-ok_example =
    scenario_context-ok working_host "/step7_5" true listing empty_world empty_world stubs seeded
      listing-IsWorking
