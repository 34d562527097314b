-- ===== src/Server/Registry.antt =====
-- server/registry.py: the record of a run, and the registry with its one active run.
use syndicate.Prelude.{
  ℕ, ◌+◌, String, Bool, true, false, Option, none, some, List, [], ◌∷◌, ◌++◌, leb, length, str_eq,
  is_none, if◌then◌else◌, map,
}
use syndicate.Prelude.Maps.{put, find}
use syndicate.Server.Events.{Envelope}

pub data RunState : Type 0 where
  queued running completed failed escalated : RunState

abbrev pub backlog_maxlen : ℕ
backlog_maxlen = 2000

-- `task` is left out: it is the coroutine that drives the run. `created_at` is in microseconds.
pub record RunRecord : Type 0 where
  pub run_id : String
  pub raw_request : String
  pub status : RunState
  pub created_at : ℕ
  pub backlog : List Envelope
  pub new_event : Bool
  pub seq_counter : ℕ
  pub last_attempt_log_len : ℕ
  pub last_escalation_count : ℕ
  pub last_run_status : Option String

unfoldable pub new_record : ℕ → String → String → RunRecord
new_record created_at run_id raw_request = record {
  run_id = run_id;
  raw_request = raw_request;
  status = queued;
  created_at = created_at;
  backlog = [];
  new_event = false;
  seq_counter = 0;
  last_attempt_log_len = 0;
  last_escalation_count = 0;
  last_run_status = none;
}

-- `deque(maxlen=n).append(x)`: a full queue loses its oldest element.
abbrev pub shifted {ℓ} : {A : Type ℓ} → List A → List A
shifted [] = []
shifted (x ∷ xs) = xs

unfoldable pub push {ℓ} : {A : Type ℓ} → ℕ → List A → A → List A
push maxlen xs x = (if leb maxlen (length xs) then shifted xs else xs) ++ (x ∷ [])

-- `next_seq`: the record after it, and the number.
unfoldable pub next_seq : RunRecord → RunRecord × ℕ
next_seq r = (record r { seq_counter = r.seq_counter + 1 }, r.seq_counter + 1)

unfoldable pub emit : RunRecord → Envelope → RunRecord
unfolding push
emit r e = record r { backlog = push backlog_maxlen r.backlog e; new_event = true }

-- `_runs` in the order of insertion: a dictionary by the run's id.
pub record RunRegistry : Type 0 where
  pub runs : List (String × RunRecord)
  pub active_run_id : Option String

unfoldable pub new_registry : RunRegistry
new_registry = record { runs = []; active_run_id = none }

unfoldable pub try_start : ℕ → String → String → RunRegistry → RunRegistry × Option RunRecord
unfolding put new_record
try_start created_at run_id raw_request g =
    if is_none g.active_run_id
    then (
      record {
        runs = put run_id (new_record created_at run_id raw_request) g.runs;
        active_run_id = some run_id;
      },
      some (new_record created_at run_id raw_request),
    )
    else (g, none)

abbrev pub is_text : Option String → String → Bool
is_text none s = false
is_text (some t) s = str_eq t s

unfoldable pub finish : String → RunRegistry → RunRegistry
finish run_id g = if is_text g.active_run_id run_id then record g { active_run_id = none } else g

unfoldable pub get : String → RunRegistry → Option RunRecord
unfolding find
get run_id g = find run_id g.runs

unfoldable pub all_known : RunRegistry → List RunRecord
all_known g = map (λ (entry : String × RunRecord). entry.1) g.runs
