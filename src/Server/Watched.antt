-- ===== src/Server/Watched.antt =====
-- Every connection to a run of the graph sees all of its events: server/app.py over server/runner.py.
use mathlib.Core.List.{append-nil}
use syndicate.Prelude.{
  ℕ, ◌≤◌, ◌≡◌, ◌∙◌, refl, ap, sym, subst, String, List, [], ◌∷◌, ◌++◌, inl, inr, length, take, drop,
  drop-append, take-append-drop, length-take, arith,
}
use syndicate.Host.{Host}
use syndicate.Engine.{Engine, IsLanggraph, Ending}
use syndicate.Server.Events.{Python, Envelope}
use syndicate.Server.Registry.{RunRecord, new_record, backlog_maxlen}
use syndicate.Server.Runner.{drive_run}
use syndicate.Server.App.{event_source}
use syndicate.Server.Cursor.{IsEndedOnce}
use syndicate.Server.Driven.{IsOngoing, IsClosed, drive_run-IsClosed}
use syndicate.Server.Count.{seq_counter-drive_run}
use syndicate.Server.Steps.{Reach, drive_run-Reach}
use syndicate.Server.Whole.{IsWhole, Reach-IsExtended, Reach-grows}
use syndicate.Server.Follow.{IsPrefix, IsPrefix-trans, IsChain, follow_lem}

-- The scans of a connection while a record changes: between them the run's task takes any steps, and the
-- last one finds the record as the task has left it.
pub data Scans (py : Python) (now : ℕ → String) (final : RunRecord)
    : RunRecord → List (List Envelope) → Type 0 where
  last : {r : RunRecord} → Reach py now r final → Scans py now final r (final.backlog ∷ [])
  scan :
      {r q : RunRecord} {bs : List (List Envelope)}
      → Reach py now r q
      → Scans py now final q bs
      → Scans py now final r (q.backlog ∷ bs)

IsChain-cons :
    (final seen b : List Envelope) (bs : List (List Envelope))
    → IsPrefix seen b
    → IsChain final b bs
    → IsChain final seen (b ∷ bs)
IsChain-cons final seen b [] p h = absurd h
IsChain-cons final seen b (c ∷ bs) p h = (p, h)

-- The events that do not end the stream, and one that does.
IsEndedOnce-snoc :
    (front : List Envelope) (e : Envelope) → IsOngoing front → IsEndedOnce (front ++ (e ∷ []))
IsEndedOnce-snoc [] e h = (inr refl, tt)
IsEndedOnce-snoc (x ∷ front) e (a, h) = (inl a, IsEndedOnce-snoc front e h)

module _ (py : Python) (now : ℕ → String) (final : RunRecord)
    (bound : final.seq_counter ≤ backlog_maxlen) where
  pub Scans-grows :
      {r : RunRecord} {bs : List (List Envelope)}
      → Scans py now final r bs
      → r.seq_counter ≤ final.seq_counter
  Scans-grows (last g) = Reach-grows py now g
  Scans-grows (scan g s) = omega (arith, Reach-grows py now g, Scans-grows s)

  -- The scans find backlogs that grow.
  Scans-IsChain :
      {r : RunRecord} {bs : List (List Envelope)} (seen : List Envelope)
      → Scans py now final r bs
      → IsWhole r
      → IsPrefix seen r.backlog
      → IsChain final.backlog seen bs
  Scans-IsChain {r} seen (last g) h p =
      let x = Reach-IsExtended py now g h bound in
      (refl, IsPrefix-trans seen r.backlog final.backlog p (x.added, x.split))
  Scans-IsChain {r} seen (scan {q} {bs} g s) h p =
      let x = Reach-IsExtended py now g h (omega (arith, Scans-grows s, bound)) in
      IsChain-cons final.backlog seen q.backlog bs
        (IsPrefix-trans seen r.backlog q.backlog p (x.added, x.split))
        (Scans-IsChain q.backlog s x.whole ([], sym (append-nil q.backlog)))

  event_source-Scans :
      (r : RunRecord) (bs : List (List Envelope)) (cursor : ℕ)
      → IsWhole r
      → IsClosed py now final
      → cursor ≤ r.seq_counter
      → Scans py now final r bs
      → IsWhole final
      → event_source cursor bs ≡ drop cursor final.backlog
  event_source-Scans r bs cursor h closed reached s whole =
      let seen = take cursor r.backlog in
      let n : length seen ≡ cursor =
        length-take cursor r.backlog (omega (arith, reached, h.kept)) in
      let chain =
        Scans-IsChain seen s h (drop cursor r.backlog, sym (take-append-drop cursor r.backlog)) in
      let once =
        subst IsEndedOnce (sym closed.split)
          (IsEndedOnce-snoc closed.front closed.last closed.ongoing) in
      let rest = follow_lem final.backlog seen bs whole.counted once chain in
      let sent : drop (length seen) final.backlog ≡ event_source (length seen) bs =
        ap (drop (length seen)) rest ∙ drop-append seen (event_source (length seen) bs) in
      subst (λ k. event_source k bs ≡ drop k final.backlog) n (sym sent)

module _ {W : Type 0} (engine : Engine W) (lawful : IsLanggraph engine) (host : Host W)
    (py : Python) (now : ℕ → String) (message : Ending → String) where
  -- The record of a run that has been driven holds all of its events.
  pub drive_run-IsWhole :
      (created_at : ℕ) (run_id raw_request : String) (w : W)
      → let final =
          (drive_run py now engine host message (new_record created_at run_id raw_request) w).0 in
        (final.seq_counter ≤ backlog_maxlen) × IsWhole final
  drive_run-IsWhole created_at run_id raw_request w =
      let new = new_record created_at run_id raw_request in
      let final = (drive_run py now engine host message new w).0 in
      let count =
        seq_counter-drive_run engine lawful host py now message created_at run_id raw_request w in
      let bound : final.seq_counter ≤ backlog_maxlen = omega (arith, count) in
      let begun : IsWhole new = unfold new_record in record { counted = tt; kept = refl } in
      let reached = drive_run-Reach py now engine host message new w in
      (bound, (Reach-IsExtended py now reached begun bound).whole)

  -- A client that connects to a run at any point, with a cursor that it has reached, and stays until
  -- its task has ended is sent exactly the events after the cursor, each once and in order, however
  -- its scans and the steps of the task are interleaved. No event has been dropped from the backlog.
  pub event_source-drive_run :
      (created_at : ℕ) (run_id raw_request : String) (w : W) (r : RunRecord)
      (bs : List (List Envelope)) (cursor : ℕ)
      → Reach py now (new_record created_at run_id raw_request) r
      → cursor ≤ r.seq_counter
      → Scans py now
          (drive_run py now engine host message (new_record created_at run_id raw_request) w).0
          r
          bs
      → let final =
          (drive_run py now engine host message (new_record created_at run_id raw_request) w).0 in
        (event_source cursor bs ≡ drop cursor final.backlog)
        × (length final.backlog ≡ final.seq_counter)
  event_source-drive_run created_at run_id raw_request w r bs cursor g reached s =
      let new = new_record created_at run_id raw_request in
      let final = (drive_run py now engine host message new w).0 in
      let (bound, whole) = drive_run-IsWhole created_at run_id raw_request w in
      let begun : IsWhole new = unfold new_record in record { counted = tt; kept = refl } in
      let old =
        Reach-IsExtended py now g begun (omega (arith, Scans-grows py now final bound s, bound)) in
      (
        event_source-Scans py now final bound r bs cursor old.whole
            (drive_run-IsClosed py now engine host message created_at run_id raw_request w) reached
            s whole,
        whole.kept,
      )
