-- ===== src/Tests/Server.antt =====
-- The theorems about the server.
use syndicate.Prelude.{ℕ, ◌≡◌, refl, String, none, some, List, [], ◌∷◌, ◌++◌, Bool, is_none, arith}
use syndicate.Engine.{reference, reference-IsLanggraph, Ending}
use syndicate.Server.Value.{end}
use syndicate.Server.Events.{
  Python, EventKind, Envelope, run_started, node_update, run_completed, make_envelope,
}
use syndicate.Server.Registry.{RunRegistry, new_record, new_registry, finish, get}
use syndicate.Server.Attempts.{attempts_of}
use syndicate.Server.Progress.{extracted, extracted-flatten}
use syndicate.Server.Runner.{graph_run, drive_run}
use syndicate.Server.Driven.{IsClosed, drive_run-IsClosed}
use syndicate.Server.Status.{IsVerdict, drive_run-IsVerdict}
use syndicate.Server.App.{create_run, run_and_release, accepted, refused}
use syndicate.Server.Release.{IsFinal, run_and_release-IsFinal}
use syndicate.Server.OneActive.{request, release, after_events, one_active}
use syndicate.Server.Backlog.{numbers}
use syndicate.Server.Cursor.{IsFollowed, IsWatched, event_source-IsCounted}
use syndicate.Tests.World.{demo, empty_world}

-- Nothing is redacted, and every value is dumped as the empty object.
abbrev plain : Python
plain = record { sub = λ pattern replacement s. s; dumps = λ value. "{}"; int = λ s. none }

abbrev noon : ℕ → String
noon n = "12:00"

abbrev message : Ending → String
message ending = "error"

drive_run-IsClosed_example :
    IsClosed plain noon
      (drive_run plain noon reference demo message
        (new_record 0 "run" "Fix the parser")
        empty_world).0
drive_run-IsClosed_example =
    drive_run-IsClosed plain noon reference demo message 0 "run" "Fix the parser" empty_world

drive_run-IsVerdict_example :
    IsVerdict
      (graph_run plain noon reference demo message (new_record 0 "run" "Fix") empty_world).state
      (graph_run plain noon reference demo message (new_record 0 "run" "Fix") empty_world).ending
      (drive_run plain noon reference demo message (new_record 0 "run" "Fix") empty_world).0.status
drive_run-IsVerdict_example =
    drive_run-IsVerdict reference reference-IsLanggraph demo plain noon message
      (new_record 0 "run" "Fix") empty_world

abbrev busy : RunRegistry
busy =
    after_events (request 1 "b" "second" ∷ release "c" ∷ [])
      (create_run 0 "a" "first" new_registry).0

one_active_example :
    (create_run 2 "d" "third" busy ≡ (busy, refused busy, none))
    × (busy.active_run_id ≡ some "a")
    × (is_none (get "a" busy) ≡ Bool.false)
    × ((create_run 2 "d" "third" (finish "a" busy)).1 ≡ accepted "d")
    × ((create_run 2 "d" "third" (finish "a" busy)).2 ≡ some (new_record 2 "d" "third"))
unfolding new_registry
one_active_example =
    one_active 0 "a" "first" new_registry (request 1 "b" "second" ∷ release "c" ∷ []) 2 "d" "third"
      refl (refl, tt)

-- The registry after the task of the run "a".
abbrev over : RunRegistry
over =
    (run_and_release plain noon reference demo message (new_record 0 "a" "first") busy
      empty_world).0

run_and_release-IsFinal_example :
    (over.active_run_id ≡ none)
    × (get "a" over
        ≡ some
            (drive_run plain noon reference demo message (new_record 0 "a" "first") empty_world).0)
    × IsFinal
        (drive_run plain noon reference demo message
          (new_record 0 "a" "first")
          empty_world).0.status
    × ((create_run 2 "d" "third" over).1 ≡ accepted "d")
unfolding new_registry
run_and_release-IsFinal_example =
    run_and_release-IsFinal plain noon reference demo message 0 "a" "first" new_registry
      (request 1 "b" "second" ∷ release "c" ∷ []) empty_world 2 "d" "third" refl (refl, tt)

-- The lines of two updates.
abbrev first_lines : List String
first_lines = "strike=1 fast_check exit=1" ∷ []

abbrev later_lines : List String
later_lines = "strike=2 agent stopped" ∷ "strike=2 fast_check exit=0" ∷ []

extracted-flatten_example :
    extracted plain [] (first_lines ∷ later_lines ∷ []) (new_record 0 "run" "Fix")
    ≡ attempts_of plain (first_lines ++ (later_lines ++ []))
unfolding new_record
extracted-flatten_example =
    extracted-flatten plain [] (first_lines ∷ later_lines ∷ []) (new_record 0 "run" "Fix") refl

abbrev sent : ℕ → EventKind → Envelope
sent n kind = make_envelope plain "12:00" (some n) "run" kind none end

-- A viewer that has seen the first event, and scans before and after the last.
abbrev scans : List (List Envelope)
scans =
    (sent 1 run_started ∷ sent 2 node_update ∷ [])
    ∷ (sent 1 run_started ∷ sent 2 node_update ∷ sent 3 run_completed ∷ [])
    ∷ []

scans-IsWatched : IsWatched 1 scans
unfolding numbers make_envelope
scans-IsWatched = (
  2,
  record { kept = refl; numbered = refl },
  omega arith,
  omega arith,
  (3, record { kept = refl; numbered = refl }, omega arith, omega arith, tt),
)

event_source-IsCounted_example : IsFollowed 1 scans scans-IsWatched
event_source-IsCounted_example = event_source-IsCounted 1 scans scans-IsWatched
