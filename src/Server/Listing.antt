-- ===== src/Server/Listing.antt =====
-- `list_runs` of server/app.py. The checkpoints are those that the saver lists.
pub mod Order
pub mod Latest
pub mod Sorted
pub mod Keyed
pub mod Names
use Prim.Native.Nat.{Ordering}
use Prim.Native.String.{compare}
use syndicate.Prelude.{
  ℕ, String, Bool, true, false, Option, none, some, List, [], ◌∷◌, ◌++◌, map, str_eq, if◌then◌else◌,
}
use syndicate.Prelude.Maps.{put, find}
use syndicate.Server.Registry.{RunState, RunRecord, RunRegistry, all_known}

-- The keys of a checkpoint tuple that are read; the ticket's status is its value.
pub record CheckpointTuple : Type 0 where
  pub thread_id : String
  pub ts : String
  pub ticket_status : Option String

-- The value under `created_at`: the float of a record, in microseconds, or the text of a checkpoint.
pub data Created : Type 0 where
  at_time : ℕ → Created
  stamped : String → Created

pub record Summary : Type 0 where
  pub run_id : String
  pub status : String
  pub created_at : Created

pub run_state_value : RunState → String
run_state_value RunState.queued = "queued"
run_state_value RunState.running = "running"
run_state_value RunState.completed = "completed"
run_state_value RunState.failed = "failed"
run_state_value RunState.escalated = "escalated"

-- `s < t` of texts.
abbrev pub is_before : String → String → Bool
is_before s t = elim (compare s t) [ Ordering.lt ↦ true | _ ↦ false ]

unfoldable pub is_known : String → List RunRecord → Bool
is_known id [] = false
is_known id (r ∷ rs) = let rest = is_known id rs in if str_eq r.run_id id then true else rest

-- Whether a checkpoint is the thread's first, or later than the one that is kept.
abbrev pub is_later : Option CheckpointTuple → CheckpointTuple → Bool
is_later none c = true
is_later (some kept) c = is_before kept.ts c.ts

abbrev pub Latest : Type 0
Latest = List (String × CheckpointTuple)

-- One checkpoint of the loop.
unfoldable pub keep_latest : List RunRecord → CheckpointTuple → Latest → Latest
unfolding is_known
keep_latest known c kept =
    if is_known c.thread_id known
    then kept
    else if is_later (find c.thread_id kept) c
    then put c.thread_id c kept
    else kept

unfoldable pub latest_by_thread : List RunRecord → List CheckpointTuple → Latest → Latest
unfolding keep_latest
latest_by_thread known [] kept = kept
latest_by_thread known (c ∷ cs) kept = latest_by_thread known cs (keep_latest known c kept)

abbrev pub stored_status : Option String → String
stored_status none = "unknown"
stored_status (some status) = if str_eq status "escalated" then "escalated" else "completed"

-- `str_float` is `str` on the floats of `time.time()`.
module _ (str_float : ℕ → String) where
  -- `str(r['created_at'])`
  abbrev pub shown : Created → String
  shown (at_time t) = str_float t
  shown (stamped s) = s

  -- `results.sort(key=..., reverse=True)`, which keeps the order of equal keys.
  unfoldable pub insert_run : Summary → List Summary → List Summary
  insert_run s [] = s ∷ []
  insert_run s (t ∷ ts) =
      let rest = insert_run s ts in
      if is_before (shown t.created_at) (shown s.created_at) then s ∷ t ∷ ts else t ∷ rest

  unfoldable pub sort_runs : List Summary → List Summary → List Summary
  unfolding insert_run
  sort_runs [] sorted = sorted
  sort_runs (s ∷ ss) sorted = sort_runs ss (insert_run s sorted)

abbrev pub live_summary : RunRecord → Summary
live_summary r = record {
  run_id = r.run_id;
  status = run_state_value r.status;
  created_at = at_time r.created_at;
}

abbrev pub stored_summary : String × CheckpointTuple → Summary
stored_summary (id, c) = record {
  run_id = id;
  status = stored_status c.ticket_status;
  created_at = stamped c.ts;
}

-- The runs of the registry, and those of a process before it.
unfoldable pub summaries : RunRegistry → List CheckpointTuple → List Summary
unfolding latest_by_thread run_state_value
summaries g checkpoints =
    map live_summary (all_known g)
    ++ map stored_summary (latest_by_thread (all_known g) checkpoints [])

unfoldable pub list_runs : (ℕ → String) → RunRegistry → List CheckpointTuple → List Summary
unfolding sort_runs
list_runs str_float g checkpoints = sort_runs str_float (summaries g checkpoints) []
