-- ===== src/Server/Sent.antt =====
-- How many events the parts of `drive_run` of server/runner.py send.
use syndicate.Prelude.{
  ℕ, zero, suc, ◌+◌, ◌≤◌, ◌≡◌, refl, String, Option, none, some, List, [], ◌∷◌, Bool-cases, inl,
  inr, length, drop, or_nil, arith,
}
use syndicate.State.{AgentState}
use syndicate.Graph.{
  Node, analyzer, architect, dispatch, executor, validator, oversight_git, escalate, advance,
}
use syndicate.Server.Value.{Fields, update_fields}
use syndicate.Server.Events.{Python, EventKind, attempt}
use syndicate.Server.Registry.{RunRecord, next_seq, emit}
use syndicate.Server.Attempts.{contains, attempts_of, logged_attempts, extract_attempts}
use syndicate.Server.Runner.{
  node_name, extract_escalation, send, send_attempts, send_escalation, send_update,
}

length-drop {ℓ} : {A : Type ℓ} (n : ℕ) (xs : List A) → length (drop n xs) ≤ length xs
length-drop n [] = omega arith
length-drop zero (x ∷ xs) = omega arith
length-drop (suc n) (x ∷ xs) = omega (arith, length-drop n xs)

module _ (py : Python) (now : ℕ → String) where
  length-attempts_of : (lines : List String) → length (attempts_of py lines) ≤ length lines
  unfolding attempts_of
  length-attempts_of [] = omega arith
  length-attempts_of (line ∷ lines) =
      let rest = length-attempts_of lines in
      elim (Bool-cases (contains "fast_check" line)) [
        | inl e ↦ rw e (omega (arith, rest))
        | inr e ↦ rw e (omega (arith, rest))
      ]

  -- The attempts that an update gives, and the count of events, which it leaves.
  abbrev IsFound : AgentState → RunRecord → RunRecord × List Fields → Type 0
  IsFound u r found =
      (length found.1 ≤ length (or_nil u.attempt_log)) × (found.0.seq_counter ≡ r.seq_counter)

  logged-IsFound :
      (u : AgentState) (log : Option (List String)) (r : RunRecord)
      → u.attempt_log ≡ log
      → IsFound u r (logged_attempts py log r)
  logged-IsFound u none r e = (omega arith, refl)
  logged-IsFound u (some log) r e = (
    rw e (
        omega (
          arith,
          length-attempts_of (drop r.last_attempt_log_len log),
          length-drop r.last_attempt_log_len log,
        )),
    refl,
  )

  extract-IsFound :
      (n : Node) (u : AgentState) (r : RunRecord) → IsFound u r (extract_attempts py n u r)
  unfolding extract_attempts
  extract-IsFound executor u r = logged-IsFound u u.attempt_log r refl
  extract-IsFound analyzer u r = (omega arith, refl)
  extract-IsFound architect u r = (omega arith, refl)
  extract-IsFound dispatch u r = (omega arith, refl)
  extract-IsFound validator u r = (omega arith, refl)
  extract-IsFound oversight_git u r = (omega arith, refl)
  extract-IsFound escalate u r = (omega arith, refl)
  extract-IsFound advance u r = (omega arith, refl)

  pub seq_counter-send :
      (kind : EventKind) (at : Option String) (payload : Fields) (r : RunRecord)
      → (send py now kind at payload r).seq_counter ≡ r.seq_counter + 1
  unfolding send next_seq emit
  seq_counter-send kind at payload r = refl

  seq_counter-send_attempts :
      (at : String) (ps : List Fields) (r : RunRecord)
      → (send_attempts py now at ps r).seq_counter ≡ r.seq_counter + length ps
  unfolding send_attempts
  seq_counter-send_attempts at [] r = omega arith
  seq_counter-send_attempts at (p ∷ ps) r = omega (
    arith,
    seq_counter-send_attempts at ps (send py now attempt (some at) p r),
    seq_counter-send attempt (some at) p r,
  )

  seq_counter-send_escalation :
      (at : String) (p : Option Fields) (r : RunRecord)
      → (send_escalation py now at p r).seq_counter ≤ r.seq_counter + 1
  seq_counter-send_escalation at none r = omega arith
  seq_counter-send_escalation at (some p) r =
      omega (arith, seq_counter-send EventKind.escalation (some at) p r)

  seq_counter-extract_escalation :
      (u : AgentState) (r : RunRecord) → (extract_escalation u r).0.seq_counter ≡ r.seq_counter
  unfolding extract_escalation
  seq_counter-extract_escalation u r = refl

  pub seq_counter-send_update :
      (n : Node) (u : AgentState) (r : RunRecord)
      → (send_update py now n u r).seq_counter ≤ r.seq_counter + 2 + length (or_nil u.attempt_log)
  unfolding send_update
  seq_counter-send_update n u r =
      let updated = send py now EventKind.node_update (some (node_name n)) (update_fields u) r in
      let found = extract_attempts py n u updated in
      let attempted = send_attempts py now (node_name n) found.1 found.0 in
      let escalated = extract_escalation u attempted in
      let fits = extract-IsFound n u updated in
      omega (
        arith,
        seq_counter-send EventKind.node_update (some (node_name n)) (update_fields u) r,
        fits.0,
        fits.1,
        seq_counter-send_attempts (node_name n) found.1 found.0,
        seq_counter-extract_escalation u attempted,
        seq_counter-send_escalation (node_name n) escalated.1 escalated.0,
      )
