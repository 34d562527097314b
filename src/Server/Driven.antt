-- ===== src/Server/Driven.antt =====
-- What `drive_run` of server/runner.py leaves in the backlog.
use mathlib.Core.Logic.{inl, inr}
use syndicate.Prelude.{
  ℕ, ◌≡◌, refl, String, true, false, Option, none, some, List, [], ◌∷◌, ◌++◌, leb, length,
  Bool-cases, if◌then◌else◌, arith,
}
use syndicate.State.{AgentState}
use syndicate.Host.{Host}
use syndicate.Graph.{
  Node, analyzer, architect, dispatch, executor, validator, oversight_git, escalate, advance,
}
use syndicate.Engine.{Engine, Ending}
use syndicate.Server.Value.{Fields}
use syndicate.Server.Events.{
  Python, EventKind, Envelope, run_started, node_update, attempt, escalation, run_completed,
  run_failed, is_terminal, make_envelope,
}
use syndicate.Server.Registry.{
  RunState, RunRecord, new_record, push, shifted, next_seq, emit, backlog_maxlen,
}
use syndicate.Server.Backlog.{IsTail, nil-IsTail, push-IsTail}
use syndicate.Server.Attempts.{logged_attempts, extract_attempts}
use syndicate.Server.Runner.{
  extract_escalation, send, send_attempts, send_escalation, send_update, send_updates, send_ending,
  started, drive_run,
}

-- None of the events ends the stream.
abbrev pub IsOngoing : List Envelope → Type 0
IsOngoing [] = Unit
IsOngoing (e ∷ es) = (is_terminal e.kind ≡ false) × IsOngoing es

IsOngoing-shifted : (es : List Envelope) → IsOngoing es → IsOngoing (shifted es)
IsOngoing-shifted [] h = tt
IsOngoing-shifted (e ∷ es) h = h.1

IsOngoing-snoc :
    (es : List Envelope) (e : Envelope)
    → IsOngoing es
    → is_terminal e.kind ≡ false
    → IsOngoing (es ++ (e ∷ []))
IsOngoing-snoc [] e h t = (t, tt)
IsOngoing-snoc (x ∷ es) e (a, h) t = (a, IsOngoing-snoc es e h t)

-- What a full queue keeps for one more element.
kept_front : List Envelope → List Envelope
kept_front es = if leb backlog_maxlen (length es) then shifted es else es

IsOngoing-kept : (es : List Envelope) → IsOngoing es → IsOngoing (kept_front es)
unfolding kept_front
IsOngoing-kept es h = elim (Bool-cases (leb backlog_maxlen (length es))) [
  | inl full ↦ rw full (IsOngoing-shifted es h)
  | inr free ↦ rw free h
]

-- The backlog holds the last events, which are numbered without a gap, and none ends the stream.
record IsLive (count : ℕ) (es : List Envelope) : Type 0 where
  tail : IsTail (λ (e : Envelope). e.seq) backlog_maxlen count es
  ongoing : IsOngoing es

abbrev Live : RunRecord → Type 0
Live r = IsLive r.seq_counter r.backlog

module _ (py : Python) (now : ℕ → String) where
  send-IsTail :
      (kind : EventKind) (at : Option String) (payload : Fields) (r : RunRecord)
      → IsTail (λ (e : Envelope). e.seq) backlog_maxlen r.seq_counter r.backlog
      → IsTail
          (λ (e : Envelope). e.seq)
          backlog_maxlen
          (send py now kind at payload r).seq_counter
          (send py now kind at payload r).backlog
  unfolding send emit next_seq make_envelope
  send-IsTail kind at payload r t =
      push-IsTail (λ (e : Envelope). e.seq) backlog_maxlen r.seq_counter r.backlog _ (omega arith) t
        refl

  send-Live :
      (kind : EventKind) (at : Option String) (payload : Fields) (r : RunRecord)
      → is_terminal kind ≡ false
      → Live r
      → Live (send py now kind at payload r)
  unfolding kept_front send emit next_seq make_envelope push
  send-Live kind at payload r k h = record {
    tail = send-IsTail kind at payload r h.tail;
    ongoing = IsOngoing-snoc (kept_front r.backlog) _ (IsOngoing-kept r.backlog h.ongoing) k;
  }

  logged_attempts-Live :
      (log : Option (List String)) (r : RunRecord) → Live r → Live (logged_attempts py log r).0
  logged_attempts-Live none r h = h
  logged_attempts-Live (some log) r h = h

  extract_attempts-Live :
      (n : Node) (u : AgentState) (r : RunRecord) → Live r → Live (extract_attempts py n u r).0
  unfolding extract_attempts
  extract_attempts-Live executor u r h = logged_attempts-Live u.attempt_log r h
  extract_attempts-Live analyzer u r h = h
  extract_attempts-Live architect u r h = h
  extract_attempts-Live dispatch u r h = h
  extract_attempts-Live validator u r h = h
  extract_attempts-Live oversight_git u r h = h
  extract_attempts-Live escalate u r h = h
  extract_attempts-Live advance u r h = h

  send_attempts-Live :
      (node : String) (ps : List Fields) (r : RunRecord)
      → Live r
      → Live (send_attempts py now node ps r)
  unfolding send_attempts is_terminal
  send_attempts-Live node [] r h = h
  send_attempts-Live node (p ∷ ps) r h =
      send_attempts-Live node ps _ (send-Live attempt (some node) p r refl h)

  send_escalation-Live :
      (node : String) (p : Option Fields) (r : RunRecord)
      → Live r
      → Live (send_escalation py now node p r)
  unfolding is_terminal
  send_escalation-Live node none r h = h
  send_escalation-Live node (some p) r h = send-Live escalation (some node) p r refl h

  send_update-Live :
      (n : Node) (u : AgentState) (r : RunRecord) → Live r → Live (send_update py now n u r)
  unfolding send_update is_terminal extract_escalation
  send_update-Live n u r h =
      send_escalation-Live _ _ _ (
        send_attempts-Live _ _ _ (extract_attempts-Live n u _ (send-Live node_update _ _ r refl h)))

  send_updates-Live :
      (us : List (Node × AgentState)) (r : RunRecord) → Live r → Live (send_updates py now us r)
  unfolding send_updates
  send_updates-Live [] r h = h
  send_updates-Live ((n, u) ∷ us) r h = send_updates-Live us _ (send_update-Live n u r h)

  started-Live : (r : RunRecord) → r.backlog ≡ [] → r.seq_counter ≡ 0 → Live r
  started-Live r e z =
      rw (e, z)
        (record { tail = nil-IsTail (λ (e : Envelope). e.seq) backlog_maxlen; ongoing = tt })

  -- One event ends the stream, after the events that do not.
  pub record IsClosed (r : RunRecord) : Type 0 where
    pub tail : IsTail (λ (e : Envelope). e.seq) backlog_maxlen r.seq_counter r.backlog
    pub front : List Envelope
    pub last : Envelope
    pub split : r.backlog ≡ front ++ (last ∷ [])
    pub ongoing : IsOngoing front
    pub terminal : is_terminal last.kind ≡ true

  send-IsClosed :
      (kind : EventKind) (at : Option String) (payload : Fields) (r : RunRecord)
      → is_terminal kind ≡ true
      → Live r
      → IsClosed (send py now kind at payload r)
  unfolding kept_front send emit next_seq make_envelope push
  send-IsClosed kind at payload r k h = record {
    tail = send-IsTail kind at payload r h.tail;
    front = kept_front r.backlog;
    last = _;
    split = refl;
    ongoing = IsOngoing-kept r.backlog h.ongoing;
    terminal = k;
  }

  send_ending-IsClosed :
      (message : Ending → String) (ending : Ending) (s : AgentState) (r : RunRecord)
      → Live r
      → IsClosed (send_ending py now message ending s r)
  unfolding send_ending is_terminal
  send_ending-IsClosed message Ending.completed s r h = send-IsClosed run_completed none _ _ refl h
  send_ending-IsClosed message (Ending.failed x) s r h = send-IsClosed run_failed none _ _ refl h
  send_ending-IsClosed message Ending.out_of_steps s r h = send-IsClosed run_failed none _ _ refl h

  module _ {W : Type 0} (engine : Engine W) (host : Host W) (message : Ending → String) where
    -- A new run that was driven, whatever the engine yields, has a backlog whose events are numbered
    -- one by one up to the counter: all of them, or the last 2000. The last event, and no other, is
    -- `run_completed` or `run_failed`.
    pub drive_run-IsClosed :
        (created_at : ℕ) (run_id raw_request : String) (w : W)
        → IsClosed
            (drive_run py now engine host message (new_record created_at run_id raw_request) w).0
    unfolding drive_run new_record started is_terminal
    drive_run-IsClosed created_at run_id raw_request w =
        let r : RunRecord = record (new_record created_at run_id raw_request) {
          status = RunState.running;
        } in
        send_ending-IsClosed message _ _ _
          (send_updates-Live _ _ (send-Live run_started none _ r refl (started-Live r refl refl)))
