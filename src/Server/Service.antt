-- ===== src/Server/Service.antt =====
-- The handlers of server/app.py that only read: get_run_state, the lookup of stream_run, health; and
-- format_sse of server/events.py.
use Prim.Native.Char.{code}
use package.text.Mathlib.Text.{starts_with}
use syndicate.Prelude.{
  ℕ, ℤ, String, ◌<>◌, Bool, true, false, Option, none, some, List, [], ◌∷◌, str_eq, is_space,
  or_nil, if◌then◌else◌,
}
use syndicate.Exec.{Result, ok, raised, value_error, external}
use syndicate.State.{AgentState, DecisionSummary}
use syndicate.Server.Value.{
  Value, null, nullable, number, natural, text, list, dict, Items, nil, cons, Fields, end, field,
  update_fields,
}
use syndicate.Server.Events.{
  Python, EventKind, Envelope, run_started, node_update, attempt, escalation, run_completed,
  run_failed, heartbeat, redact_fields,
}
use syndicate.Server.Registry.{RunRecord, RunRegistry, get}

pub record HttpException : Type 0 where
  pub status_code : ℕ
  pub detail : String

pub data Answer {ℓ} (A : Type ℓ) : Type ℓ where
  answered : A → Answer A
  refuses : HttpException → Answer A

-- `d[k] = v`
unfoldable pub set_field : String → Value → Fields → Fields
set_field k v end = field k v end
set_field k v (field j u fs) =
    let rest = set_field k v fs in if str_eq j k then field k v fs else field j u rest

pub ledger_items : List DecisionSummary → Items
ledger_items [] = nil
ledger_items (e ∷ es) =
    cons
      (dict
        (field "summary" (text e.summary) (field "attempt_count" (natural e.attempt_count) end)))
      (ledger_items es)

abbrev pub not_found : String → HttpException
not_found detail = record { status_code = 404; detail = detail }

-- `not snapshot.values`
abbrev pub is_blank : Fields → Bool
is_blank end = true
is_blank (field k v fs) = false

abbrev pub with_ledger : AgentState → Fields
with_ledger s =
    set_field "decision_ledger" (list (ledger_items (or_nil s.decision_ledger))) (update_fields s)

module _ (repr : String → String) where
  abbrev pub no_state : String → HttpException
  no_state run_id = not_found ("no state for run_id=" <> repr run_id)

  -- The argument is the state that `aget_state` finds, if it finds one.
  unfoldable pub get_run_state : Python → String → Option AgentState → Answer Fields
  unfolding set_field ledger_items
  get_run_state py run_id none = refuses (no_state run_id)
  get_run_state py run_id (some s) =
      if is_blank (update_fields s)
      then refuses (no_state run_id)
      else answered (redact_fields py (with_ledger s))

  abbrev pub known_or : String → Option RunRecord → Answer RunRecord
  known_or run_id none = refuses (not_found ("unknown run_id=" <> repr run_id))
  known_or run_id (some r) = answered r

  -- `stream_run` before it streams.
  unfoldable pub stream_run : String → RunRegistry → Answer RunRecord
  stream_run run_id g = known_or run_id (get run_id g)

-- `line.split()`: the word that is being read is put in front.
abbrev pub close : String → List String → List String
close String.[] words = words
close (String.◌∷◌ c s) words = String.◌∷◌ c s ∷ words

-- The word at the start of a text, and the words after it.
pub split_from : String → String × List String
split_from String.[] = ("", [])
split_from (String.◌∷◌ c s) =
    let rest = split_from s in
    if is_space (code c) then ("", close rest.0 rest.1) else (String.◌∷◌ c rest.0, rest.1)

unfoldable pub split : String → List String
unfolding split_from is_space
split s = let read = split_from s in close read.0 read.1

-- `int(line.split()[1])`. The text of the ValueError goes on with the word.
abbrev pub second_word : Python → List String → Result ℤ
second_word py [] = raised (external "list index out of range")
second_word py (w ∷ []) = raised (external "list index out of range")
second_word py (w ∷ v ∷ words) = elim (py.int v) [
  | none ↦ raised (value_error ("invalid literal for int() with base 10"))
  | some n ↦ ok n
]

pub scan_status : Python → ℤ → List String → Result ℤ
unfolding split
scan_status py max_rss [] = ok max_rss
scan_status py max_rss (line ∷ lines) =
    let rest = scan_status py max_rss lines in
    if starts_with line "VmRSS:" then second_word py (split line) else rest

-- The lines of /proc/self/status, `none` for an OSError, and the maximum that `getrusage` tells.
unfoldable pub current_rss_kb : Python → Option (List String) → ℤ → Result ℤ
unfolding scan_status
current_rss_kb py none max_rss = ok max_rss
current_rss_kb py (some lines) max_rss = scan_status py max_rss lines

abbrev pub healthy : RunRegistry → Result ℤ → Result Fields
healthy g (raised e) = raised e
healthy g (ok rss) = ok (
    field "status" (text "ok")
      (field "active_run_id" (nullable g.active_run_id) (field "rss_kb" (number rss) end)))

unfoldable pub health : Python → Option (List String) → ℤ → RunRegistry → Result Fields
health py status max_rss g = healthy g (current_rss_kb py status max_rss)

pub kind_name : EventKind → String
kind_name run_started = "run_started"
kind_name node_update = "node_update"
kind_name attempt = "attempt"
kind_name escalation = "escalation"
kind_name run_completed = "run_completed"
kind_name run_failed = "run_failed"
kind_name heartbeat = "heartbeat"

abbrev pub number_or_null : Option ℕ → Value
number_or_null none = null
number_or_null (some n) = natural n

-- An envelope as the dictionary that it is.
unfoldable pub envelope_value : Envelope → Value
unfolding kind_name
envelope_value e = dict (
    field "seq" (number_or_null e.seq) (
      field "ts" (text e.ts) (
        field "run_id" (text e.run_id) (
          field "kind" (text (kind_name e.kind))
            (field "node" (nullable e.node) (field "payload" (dict e.payload) end))))))

abbrev pub framed : Option String → Option String
framed none = none
framed (some t) = some ("data: " <> t <> "\n\n")

-- `dumps` is `json.dumps` without a default: `none` is its TypeError.
unfoldable pub format_sse : (Value → Option String) → Envelope → Option String
unfolding envelope_value
format_sse dumps e = framed (dumps (envelope_value e))
