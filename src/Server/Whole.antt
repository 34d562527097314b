-- ===== src/Server/Whole.antt =====
-- While a backlog is not full it holds all the events, and steps add to its end.
use mathlib.Core.List.{append_assoc, append-nil}
use syndicate.Prelude.{
  ℕ, ◌+◌, ◌≤◌, ◌≡◌, ◌∙◌, refl, ap, sym, String, some, List, [], ◌∷◌, ◌++◌, length, length-append,
  leb, false, subst, arith,
}
use syndicate.Server.Events.{Python, Envelope, make_envelope}
use syndicate.Server.Registry.{RunRecord, push, next_seq, emit, backlog_maxlen}
use syndicate.Server.Cursor.{IsCounted, IsCounted-append}
use syndicate.Server.Runner.{send}
use syndicate.Server.Steps.{Step, sends, keeps, Reach, here, next}

-- All the events so far are in the backlog, numbered from 1.
pub record IsWhole (r : RunRecord) : Type 0 where
  pub counted : IsCounted 0 r.backlog
  pub kept : length r.backlog ≡ r.seq_counter

-- What was added to a whole backlog.
pub record IsExtended (r q : RunRecord) : Type 0 where
  pub whole : IsWhole q
  pub added : List Envelope
  pub split : q.backlog ≡ r.backlog ++ added
  pub grows : r.seq_counter ≤ q.seq_counter

push-free {ℓ} :
    {A : Type ℓ} (maxlen : ℕ) (xs : List A) (x : A)
    → length xs + 1 ≤ maxlen
    → push maxlen xs x ≡ xs ++ (x ∷ [])
unfolding push
push-free maxlen xs x h = let free : leb maxlen (length xs) ≡ false = ground arith in rw free refl

IsWhole-eq :
    (r q : RunRecord)
    → q.backlog ≡ r.backlog
    → q.seq_counter ≡ r.seq_counter
    → IsWhole r
    → IsWhole q
IsWhole-eq r q e c h = record {
  counted = subst (IsCounted 0) (sym e) h.counted;
  kept = ap length e ∙ h.kept ∙ sym c;
}

-- The backlog with one more event.
IsWhole-snoc :
    (r q : RunRecord) (e : Envelope)
    → q.backlog ≡ r.backlog ++ (e ∷ [])
    → q.seq_counter ≡ r.seq_counter + 1
    → e.seq ≡ some (r.seq_counter + 1)
    → IsWhole r
    → IsWhole q
IsWhole-snoc r q e split c n h =
    let m : e.seq ≡ some (0 + length r.backlog + 1) = n ∙ ap some (omega (arith, h.kept)) in
    record {
      counted =
          subst (IsCounted 0) (sym split) (IsCounted-append 0 r.backlog (e ∷ []) h.counted (m, tt));
      kept = ap length split ∙ (omega (arith, length-append {0} r.backlog, h.kept, c));
    }

module _ (py : Python) (now : ℕ → String) where
  Step-IsExtended :
      {r q : RunRecord}
      → Step py now r q
      → IsWhole r
      → q.seq_counter ≤ backlog_maxlen
      → IsExtended r q
  unfolding send emit next_seq make_envelope
  Step-IsExtended {q} (sends kind at payload r) h b =
      let split =
        push-free backlog_maxlen r.backlog
          (make_envelope py (now (r.seq_counter + 1)) (some (r.seq_counter + 1)) r.run_id kind at
            payload)
          (omega (arith, b, h.kept)) in
      record {
        whole = IsWhole-snoc r q _ split refl refl h;
        added = _;
        split = split;
        grows = omega arith;
      }
  Step-IsExtended (keeps r q e c) h b = record {
    whole = IsWhole-eq r q e c h;
    added = [];
    split = e ∙ sym (append-nil r.backlog);
    grows = omega (arith, c);
  }

  pub Step-grows : {r q : RunRecord} → Step py now r q → r.seq_counter ≤ q.seq_counter
  unfolding send emit next_seq
  Step-grows (sends kind at payload r) = omega arith
  Step-grows (keeps r q e c) = omega (arith, c)

  -- As long as no more than a backlog's events are sent, it is extended.
  pub Reach-IsExtended :
      {r q : RunRecord}
      → Reach py now r q
      → IsWhole r
      → q.seq_counter ≤ backlog_maxlen
      → IsExtended r q
  Reach-IsExtended {r} here h b = record {
    whole = h;
    added = [];
    split = sym (append-nil r.backlog);
    grows = omega arith;
  }
  Reach-IsExtended {r} (next g s) h b =
      let old = Reach-IsExtended g h (omega (arith, Step-grows s, b)) in
      let new = Step-IsExtended s old.whole b in
      record {
        whole = new.whole;
        added = old.added ++ new.added;
        split =
            new.split
            ∙ ap (λ es. es ++ new.added) old.split
            ∙ append_assoc r.backlog old.added new.added;
        grows = omega (arith, old.grows, new.grows);
      }

  pub Reach-grows : {r q : RunRecord} → Reach py now r q → r.seq_counter ≤ q.seq_counter
  Reach-grows here = omega arith
  Reach-grows (next g s) = omega (arith, Reach-grows g, Step-grows s)
