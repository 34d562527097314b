-- ===== src/Tests/Listing.antt =====
-- A listing with two runs of the registry, and three checkpoints of which one is of a known run.
use mathlib.Core.List.{Nodup}
use syndicate.Prelude.{◌≡◌, refl, str, some, none, List, [], ◌∷◌}
use syndicate.Prelude.Maps.{find}
use syndicate.Server.App.{create_run}
use syndicate.Server.Registry.{RunState, RunRegistry, new_registry, try_start, finish, all_known}
use syndicate.Server.OneActive.{Event, request, release, change, alter, after_events}
use syndicate.Server.Listing.{CheckpointTuple, summaries, list_runs}
use syndicate.Server.Listing.Keyed.{IsSteady}
use syndicate.Server.Listing.Names.{names, list_runs-Nodup}

abbrev two_runs : List Event
two_runs =
    request 1709251200000000 "a" "Fix the parser"
    ∷ change "a" (λ r. record r { status = RunState.completed })
    ∷ release "a"
    ∷ request 1709337600000000 "b" "Fix the printer"
    ∷ []

two_runs-IsSteady : IsSteady two_runs
two_runs-IsSteady = (λ r. refl, tt)

abbrev stored : List CheckpointTuple
stored =
    record { thread_id = "c"; ts = "2024-02-01"; ticket_status = none }
    ∷ record { thread_id = "a"; ts = "2024-03-01"; ticket_status = some "done" }
    ∷ record { thread_id = "c"; ts = "2024-02-02"; ticket_status = some "done" }
    ∷ []

abbrev registry : RunRegistry
registry = after_events two_runs new_registry

-- The checkpoint of February is listed before the runs of March: the texts of the floats of the runs
-- are before all texts that begin with a year.
names_example : names (list_runs str registry stored) ≡ "c" ∷ "b" ∷ "a" ∷ []
unfolding str list_runs summaries all_known create_run try_start finish new_registry alter find
names_example = refl

list_runs-Nodup_example : Nodup (names (list_runs str registry stored))
list_runs-Nodup_example = list_runs-Nodup str two_runs stored two_runs-IsSteady
