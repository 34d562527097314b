-- ===== src/Tests/Watch.antt =====
-- A client that follows a run from its start.
use syndicate.Prelude.{ℕ, ◌≡◌, String, none, List, [], ◌∷◌, ◌++◌, ◌≤◌, length, drop, arith}
use syndicate.Engine.{reference, reference-IsLanggraph, Ending}
use syndicate.Server.Events.{Python, Envelope}
use syndicate.Server.Registry.{RunRecord, new_record, backlog_maxlen}
use syndicate.Server.Runner.{drive_run}
use syndicate.Server.App.{event_source, cursor}
use syndicate.Server.Whole.{IsWhole}
use syndicate.Server.Reconnect.{received, cursor_bound, event_source-reconnected}
use syndicate.Server.Steps.{here, drive_run-Reach}
use syndicate.Server.Watched.{Scans, last, scan, drive_run-IsWhole, event_source-drive_run}
use syndicate.Tests.World.{demo, empty_world}

abbrev silent : Python
silent = record { sub = λ pattern replacement s. s; dumps = λ value. "{}"; int = λ s. none }

abbrev clock : ℕ → String
clock n = "12:00"

abbrev failure : Ending → String
failure ending = "error"

abbrev fresh : RunRecord
fresh = new_record 0 "run" "Fix the parser"

abbrev driven : RunRecord
driven = (drive_run silent clock reference demo failure fresh empty_world).0

-- A scan before the run has begun, and one when it has ended.
abbrev two_scans : List (List Envelope)
two_scans = fresh.backlog ∷ driven.backlog ∷ []

event_source-drive_run_example :
    (event_source 0 two_scans ≡ drop 0 driven.backlog)
    × (length driven.backlog ≡ driven.seq_counter)
event_source-drive_run_example =
    event_source-drive_run reference reference-IsLanggraph demo silent clock failure 0 "run"
      "Fix the parser" empty_world fresh two_scans 0 here (unfold new_record in omega arith)
      (scan here (last (drive_run-Reach silent clock reference demo failure fresh empty_world)))

-- The client is gone when it has received two events, and comes back when the run has ended.
abbrev broken : List (List Envelope)
broken = driven.backlog ∷ []

scanned : Scans silent clock driven fresh broken
scanned = last (drive_run-Reach silent clock reference demo failure fresh empty_world)

driven-IsWhole : (driven.seq_counter ≤ backlog_maxlen) × IsWhole driven
driven-IsWhole =
    drive_run-IsWhole reference reference-IsLanggraph demo silent clock failure 0 "run"
      "Fix the parser" empty_world

two_reached : cursor 0 (received 2 0 broken) ≤ driven.seq_counter
two_reached =
    let all =
      event_source-drive_run reference reference-IsLanggraph demo silent clock failure 0 "run"
        "Fix the parser" empty_world fresh broken 0 here (unfold new_record in omega arith)
        scanned in
    let bound =
      cursor_bound 0 2 broken [] driven.backlog all.0 (omega arith) driven-IsWhole.1.counted in
    omega (arith, bound, all.1)

event_source-reconnected_example :
    received 2 0 broken ++ event_source (cursor 0 (received 2 0 broken)) (driven.backlog ∷ [])
    ≡ drop 0 driven.backlog
event_source-reconnected_example =
    event_source-reconnected reference reference-IsLanggraph demo silent clock failure 0 "run"
      "Fix the parser" empty_world fresh driven broken [] (driven.backlog ∷ []) 0 2 here
      (unfold new_record in omega arith) scanned
      (drive_run-Reach silent clock reference demo failure fresh empty_world) two_reached
      (last here)
