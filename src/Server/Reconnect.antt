-- ===== src/Server/Reconnect.antt =====
-- A client of server/app.py that loses its connection and comes back.
use mathlib.Core.List.{append_assoc, append-nil}
use syndicate.Prelude.{
  ℕ, zero, suc, ◌+◌, ◌≤◌, ◌≡◌, ◌∙◌, refl, ap, sym, subst, Bool-cases, String, List, [], ◌∷◌, ◌++◌,
  inl, inr, length, take, drop, drop-append, take-append-drop, length-take, length-append, arith,
}
use syndicate.Host.{Host}
use syndicate.Engine.{Engine, IsLanggraph, Ending}
use syndicate.Server.Events.{Python, Envelope}
use syndicate.Server.Registry.{RunRecord, new_record}
use syndicate.Server.Runner.{drive_run}
use syndicate.Server.App.{pending, deliver, cursor, event_source}
use syndicate.Server.Cursor.{IsCounted, cursor-IsCounted}
use syndicate.Server.Steps.{Reach}
use syndicate.Server.Follow.{IsPrefix, IsCounted-left, IsCounted-right}
use syndicate.Server.Watched.{Scans, Scans-grows, drive_run-IsWhole, event_source-drive_run}

-- What a connection has been sent before it breaks is the beginning of what it would have been sent.
event_source-append :
    (last : ℕ) (bs more : List (List Envelope))
    → IsPrefix (event_source last bs) (event_source last (bs ++ more))
unfolding event_source
event_source-append last [] more = (event_source last more, refl)
event_source-append last (b ∷ bs) more = elim (Bool-cases (deliver (pending last b)).1) [
  | inl stop ↦ rw stop ([], sym (append-nil _))
  | inr go ↦
      let rest = event_source-append (cursor last (deliver (pending last b)).0) bs more in
      rw go (
        rest.0,
        ap (λ l. (deliver (pending last b)).0 ++ l) rest.1
            ∙ sym (append_assoc (deliver (pending last b)).0 _ rest.0),
      )
]

drop-drop : {A : Type 0} (m n : ℕ) (xs : List A) → drop (m + n) xs ≡ drop n (drop m xs)
drop-drop m n [] = refl
drop-drop zero n (x ∷ xs) = let e : 0 + n ≡ n = omega arith in ap (λ k. drop k (x ∷ xs)) e
drop-drop (suc m) n (x ∷ xs) =
    let e : suc m + n ≡ suc (m + n) = omega arith in ap (λ k. drop k (x ∷ xs)) e ∙ drop-drop m n xs

drop-IsCounted :
    (c : ℕ) (es : List Envelope) → c ≤ length es → IsCounted 0 es → IsCounted c (drop c es)
drop-IsCounted c es h counted =
    let n : 0 + length (take c es) ≡ c = omega (arith, length-take c es h) in
    subst (λ k. IsCounted k (drop c es)) n
      (IsCounted-right 0 (take c es) (drop c es)
        (subst (IsCounted 0) (sym (take-append-drop c es)) counted))

-- The first `k` events that a connection with these scans is sent.
abbrev pub received : ℕ → ℕ → List (List Envelope) → List Envelope
received k c bs = take k (event_source c bs)

module _ (c k : ℕ) (before more : List (List Envelope)) (all : List Envelope)
    (sent : event_source c (before ++ more) ≡ drop c all) where
  -- What is still to come when the connection breaks.
  missing : List Envelope
  missing = drop k (event_source c before) ++ (event_source-append c before more).0

  received-missing : drop c all ≡ received k c before ++ missing
  unfolding missing
  received-missing =
      sym sent
      ∙ (event_source-append c before more).1
      ∙ ap (λ l. l ++ (event_source-append c before more).0)
          (sym (take-append-drop k (event_source c before)))
      ∙ append_assoc (received k c before) (drop k (event_source c before)) _

  -- The last number that was received is the place up to which events were received.
  cursor-received :
      c ≤ length all
      → IsCounted 0 all
      → cursor c (received k c before) ≡ c + length (received k c before)
  cursor-received h counted = cursor-IsCounted c (received k c before) (
      IsCounted-left c (received k c before) missing
        (subst (IsCounted c) received-missing (drop-IsCounted c all h counted)))

  -- So many events are there.
  pub cursor_bound : c ≤ length all → IsCounted 0 all → cursor c (received k c before) ≤ length all
  cursor_bound h counted =
      let got = received k c before in
      omega (
        arith,
        cursor-received h counted,
        ap length received-missing,
        length-append {0} got missing,
        length-append {0} (take c all) (drop c all),
        ap length (take-append-drop c all),
        length-take c all h,
      )

  resumed :
      (rest : List Envelope)
      → c ≤ length all
      → IsCounted 0 all
      → rest ≡ drop (cursor c (received k c before)) all
      → received k c before ++ rest ≡ drop c all
  resumed rest h counted e =
      let got = received k c before in
      let behind : rest ≡ missing =
        e
        ∙ ap (λ n. drop n all) (cursor-received h counted)
        ∙ drop-drop c (length got) all
        ∙ ap (drop (length got)) received-missing
        ∙ drop-append got missing in
      ap (λ l. got ++ l) behind ∙ sym received-missing

module _ {W : Type 0} (engine : Engine W) (lawful : IsLanggraph engine) (host : Host W)
    (py : Python) (now : ℕ → String) (message : Ending → String) where
  -- A client connects to a run at any point, with a cursor that it has reached. Its connection breaks
  -- after any of its scans, and when the client has received any number of the events sent. It connects
  -- again at any point that has come as far as those events, with the number of the last one as its
  -- cursor, and stays until the task has ended. What it has received of both connections is exactly the
  -- events after its first cursor, each once and in order.
  pub event_source-reconnected :
      (created_at : ℕ) (run_id raw_request : String) (w : W) (r r' : RunRecord)
      (before more bs : List (List Envelope)) (c k : ℕ)
      → Reach py now (new_record created_at run_id raw_request) r
      → c ≤ r.seq_counter
      → Scans py now
          (drive_run py now engine host message (new_record created_at run_id raw_request) w).0
          r
          (before ++ more)
      → Reach py now (new_record created_at run_id raw_request) r'
      → cursor c (received k c before) ≤ r'.seq_counter
      → Scans py now
          (drive_run py now engine host message (new_record created_at run_id raw_request) w).0
          r'
          bs
      → received k c before ++ event_source (cursor c (received k c before)) bs
        ≡ drop c
            (drive_run py now engine host message
              (new_record created_at run_id raw_request)
              w).0.backlog
  event_source-reconnected created_at run_id raw_request w r r' before more bs c k g h s g' h' s' =
      let final =
        (drive_run py now engine host message (new_record created_at run_id raw_request) w).0 in
      let (bound, whole) =
        drive_run-IsWhole engine lawful host py now message created_at run_id raw_request w in
      let followed =
        event_source-drive_run engine lawful host py now message created_at run_id raw_request w in
      resumed c k before more final.backlog (followed r (before ++ more) c g h s).0 _
        (omega (arith, whole.kept, Scans-grows py now final bound s, h)) whole.counted
        (followed r' bs (cursor c (received k c before)) g' h' s').0
