-- ===== src/Server/App.antt =====
-- The handlers of server/app.py that act on the registry and on the backlog of a run.
use syndicate.Prelude.{
  ℕ, String, Bool, true, false, Option, none, some, List, [], ◌∷◌, ◌++◌, ltb, if◌then◌else◌,
}
use syndicate.Host.{Host}
use syndicate.Engine.{Engine, Ending}
use syndicate.Server.Value.{nullable, text, Fields, end, field}
use syndicate.Server.Events.{Python, Envelope, is_terminal}
use syndicate.Prelude.Maps.{put}
use syndicate.Server.Registry.{RunRecord, RunRegistry, try_start, finish}
use syndicate.Server.Runner.{drive_run}

pub record JsonResponse : Type 0 where
  pub status_code : ℕ
  pub content : Fields

abbrev pub refused : RunRegistry → JsonResponse
refused g = record {
  status_code = 409;
  content =
      field "detail" (text "a run is already active")
        (field "run_id" (nullable g.active_run_id) end);
}

abbrev pub accepted : String → JsonResponse
accepted run_id = record { status_code = 200; content = field "run_id" (text run_id) end }

-- What `create_run` does with the answer of `try_start`: the registry, the response, and the record
-- that a task is created for.
abbrev pub respond :
    String → RunRegistry × Option RunRecord → RunRegistry × JsonResponse × Option RunRecord
respond run_id (g, none) = (g, refused g, none)
respond run_id (g, some r) = (g, accepted run_id, some r)

-- `run_id` is the new UUID.
unfoldable pub create_run :
    ℕ → String → String → RunRegistry → RunRegistry × JsonResponse × Option RunRecord
create_run created_at run_id raw_request g =
    respond run_id (try_start created_at run_id raw_request g)

module _ {W : Type 0} (py : Python) (now : ℕ → String) (engine : Engine W) (host : Host W)
    (message : Ending → String) where
  -- The task: `drive_run` changes the record that the registry holds, and `finally` releases.
  unfoldable pub run_and_release : RunRecord → RunRegistry → W → RunRegistry × W
  run_and_release r g w =
      let driven = drive_run py now engine host message r w in
      (finish r.run_id (record g { runs = put r.run_id driven.0 g.runs }), driven.1)

-- `stream_run`: the events that a connection has not sent.
abbrev pub is_after : ℕ → Option ℕ → Bool
is_after last_sent none = false
is_after last_sent (some seq) = ltb last_sent seq

unfoldable pub pending : ℕ → List Envelope → List Envelope
pending last_sent [] = []
pending last_sent (e ∷ es) =
    let rest = pending last_sent es in if is_after last_sent e.seq then e ∷ rest else rest

-- The events of one scan that are sent, and whether one of them ends the stream.
unfoldable pub deliver : List Envelope → List Envelope × Bool
deliver [] = ([], false)
deliver (e ∷ es) =
    let rest = deliver es in if is_terminal e.kind then (e ∷ [], true) else (e ∷ rest.0, rest.1)

abbrev pub cursor : ℕ → List Envelope → ℕ
cursor last_sent [] = last_sent
cursor last_sent (e ∷ es) = cursor (elim e.seq [ none ↦ last_sent | some seq ↦ seq ]) es

-- `event_source`, given the backlogs that its scans find. Heartbeats, which carry no event, are left
-- out.
unfoldable pub event_source : ℕ → List (List Envelope) → List Envelope
unfolding pending deliver
event_source last_sent [] = []
event_source last_sent (backlog ∷ backlogs) =
    let sent = deliver (pending last_sent backlog) in
    let rest = event_source (cursor last_sent sent.0) backlogs in
    if sent.1 then sent.0 else sent.0 ++ rest
