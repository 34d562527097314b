-- ===== src/Tests/Runs.antt =====
-- The theorems about runs.
use syndicate.Prelude.{◌≡◌, ◌≢◌, ◌⊎◌, false, ◌+◌, ◌≤◌, refl, arith, truthy_flag}
use syndicate.Graph.{to, build_graph}
use syndicate.Graph.Transcript.{build_graph-checked}
use syndicate.Nodes.Transcript.{checked_host}
use syndicate.Engine.{reference, reference-IsLanggraph, out_of_steps}
use syndicate.Run.Terminates.{stream_terminates}
use syndicate.Run.Outcome.{IsOutcome, stream-Outcome}
use syndicate.Run.Landed.{IsCommitted, stream-IsCommitted}
use syndicate.Run.Validated.{IsValidated, stream-IsValidated}
use syndicate.State.{is_done}
use syndicate.Run.Calls.{stream-calls}
use syndicate.Tests.World.{World, demo, demo-Counts, demo-ReportsHead, start, empty_world, head_of}

stream_terminates_example :
    (reference.stream
      (build_graph demo)
      25
      (to (build_graph demo).entry_point)
      start
      empty_world).ending
    ≢ out_of_steps
stream_terminates_example =
    stream_terminates reference reference-IsLanggraph demo 25 start empty_world (omega arith)

stream-Outcome_example :
    IsOutcome demo start
      (reference.stream (build_graph demo) 25 (to (build_graph demo).entry_point) start empty_world)
stream-Outcome_example =
    stream-Outcome reference reference-IsLanggraph demo 25 start empty_world (omega arith) refl
      (refl, refl)

stream-calls_example :
    (reference.stream
      (build_graph demo)
      25
      (to (build_graph demo).entry_point)
      start
      empty_world).world.calls
    ≤ 0 + 77
stream-calls_example =
    stream-calls reference reference-IsLanggraph {tally = λ (w : World). w.calls} 25 start
      empty_world demo-Counts

build_graph-checked_example : build_graph (checked_host demo) ≡ build_graph demo
build_graph-checked_example = build_graph-checked demo

stream-IsCommitted_example :
    let r =
      reference.stream
        (build_graph demo)
        25
        (to (build_graph demo).entry_point)
        start
        empty_world in
    (is_done r.state.ticket_status ≡ false)
    ⊎ IsCommitted reference reference-IsLanggraph demo head_of start empty_world r.world
stream-IsCommitted_example =
    stream-IsCommitted reference reference-IsLanggraph demo head_of 25 start empty_world
      demo-ReportsHead refl

stream-IsValidated_example :
    let r =
      reference.stream
        (build_graph demo)
        25
        (to (build_graph demo).entry_point)
        start
        empty_world in
    (truthy_flag r.state.last_validation_passed ≡ false)
    ⊎ IsValidated demo start empty_world r.state.active_ticket
stream-IsValidated_example =
    stream-IsValidated reference reference-IsLanggraph demo 25 start empty_world refl
