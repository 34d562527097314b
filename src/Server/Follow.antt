-- ===== src/Server/Follow.antt =====
-- What a connection to `stream_run` of server/app.py is sent from backlogs that only grow.
use mathlib.Core.List.{append_assoc, append-nil}
use syndicate.Prelude.{
  ℕ, suc, ◌+◌, ◌≡◌, ◌∙◌, refl, ap, sym, subst, Bool-cases, true, false, List, [], ◌∷◌, ◌++◌, inl,
  inr, length, length-append, arith,
}
use syndicate.Server.Events.{Envelope, is_terminal}
use syndicate.Server.App.{pending, deliver, cursor, is_after, event_source}
use syndicate.Server.Cursor.{
  IsCounted, IsEndedOnce, has_terminal, pending-all, cursor-IsCounted, deliver-terminal,
  has_terminal-append,
}

abbrev pub IsPrefix : List Envelope → List Envelope → Type 0
IsPrefix xs ys = (zs : List Envelope) × (ys ≡ xs ++ zs)

pub IsPrefix-trans : (xs ys zs : List Envelope) → IsPrefix xs ys → IsPrefix ys zs → IsPrefix xs zs
IsPrefix-trans xs ys zs (us, a) (vs, b) =
    (us ++ vs, b ∙ ap (λ l. l ++ vs) a ∙ append_assoc xs us vs)

-- The backlogs that the scans of a connection find: each extends the one before, and the last is
-- `final`. The connection has been sent `seen` before.
abbrev pub IsChain : List Envelope → List Envelope → List (List Envelope) → Type 0
IsChain final seen [] = ⊥
IsChain final seen (b ∷ []) = (b ≡ final) × IsPrefix seen b
IsChain final seen (b ∷ c ∷ bs) = IsPrefix seen b × IsChain final b (c ∷ bs)

IsChain-IsPrefix :
    (final seen : List Envelope) (bs : List (List Envelope))
    → IsChain final seen bs
    → IsPrefix seen final
IsChain-IsPrefix final seen [] h = absurd h
IsChain-IsPrefix final seen (b ∷ []) (e, p) = subst (IsPrefix seen) e p
IsChain-IsPrefix final seen (b ∷ c ∷ bs) (p, h) =
    IsPrefix-trans seen b final p (IsChain-IsPrefix final b (c ∷ bs) h)

pub IsCounted-left : (k : ℕ) (xs ys : List Envelope) → IsCounted k (xs ++ ys) → IsCounted k xs
IsCounted-left k [] ys h = tt
IsCounted-left k (x ∷ xs) ys (a, h) = (a, IsCounted-left (k + 1) xs ys h)

pub IsCounted-right :
    (k : ℕ) (xs ys : List Envelope) → IsCounted k (xs ++ ys) → IsCounted (k + length xs) ys
IsCounted-right k [] ys h = let e : k ≡ k + 0 = omega arith in subst (λ j. IsCounted j ys) e h
IsCounted-right k (x ∷ xs) ys (a, h) =
    let e : k + 1 + length xs ≡ k + suc (length xs) = omega arith in
    subst (λ j. IsCounted j ys) e (IsCounted-right (k + 1) xs ys h)

pending-append :
    (k : ℕ) (xs ys : List Envelope)
    → IsCounted k (xs ++ ys)
    → pending (k + length xs) (xs ++ ys) ≡ ys
unfolding pending
pending-append k [] ys h = pending-all (k + 0) k ys (omega arith) h
pending-append k (x ∷ xs) ys (a, h) =
    let sent : is_after (k + suc (length xs)) x.seq ≡ false = rw a (ground arith) in
    let e : k + 1 + length xs ≡ k + suc (length xs) = omega arith in
    rw sent (subst (λ j. pending j (xs ++ ys) ≡ ys) e (pending-append (k + 1) xs ys h))

IsEndedOnce-left : (xs ys : List Envelope) → IsEndedOnce (xs ++ ys) → IsEndedOnce xs
IsEndedOnce-left [] ys h = tt
IsEndedOnce-left (x ∷ []) ys (a, h) = (inr refl, tt)
IsEndedOnce-left (x ∷ y ∷ xs) ys (a, h) =
    let open_end : is_terminal x.kind ≡ false = elim a [ inl e ↦ e | inr e ↦ absurd (cc e) ] in
    (inl open_end, IsEndedOnce-left (y ∷ xs) ys h)

IsEndedOnce-right : (xs ys : List Envelope) → IsEndedOnce (xs ++ ys) → IsEndedOnce ys
IsEndedOnce-right [] ys h = h
IsEndedOnce-right (x ∷ xs) ys (a, h) = IsEndedOnce-right xs ys h

nil_right : (xs ys : List Envelope) → xs ++ ys ≡ [] → ys ≡ []
nil_right [] ys h = h
nil_right (x ∷ xs) ys h = absurd (cc h)

-- Nothing follows an event that ends the stream.
IsEndedOnce-nil :
    (xs ys : List Envelope) → has_terminal xs ≡ true → IsEndedOnce (xs ++ ys) → ys ≡ []
IsEndedOnce-nil [] ys t h = absurd (cc t)
IsEndedOnce-nil (x ∷ xs) ys t (a, h) = elim (Bool-cases (is_terminal x.kind)) [
  | inl e ↦ elim a [ inl o ↦ absurd (cc (e, o)) | inr n ↦ nil_right xs ys n ]
  | inr e ↦ IsEndedOnce-nil xs ys (rw e at t) h
]

deliver-IsEndedOnce : (es : List Envelope) → IsEndedOnce es → (deliver es).0 ≡ es
unfolding deliver
deliver-IsEndedOnce [] h = refl
deliver-IsEndedOnce (e ∷ es) (a, h) =
    let rest = deliver-IsEndedOnce es h in
    elim (Bool-cases (is_terminal e.kind)) [
      | inl t ↦ rw t (elim a [ inl o ↦ absurd (cc (t, o)) | inr n ↦ ap (λ l. e ∷ l) (sym n) ])
      | inr t ↦ rw t (ap (λ l. e ∷ l) rest)
    ]

-- What is left of the events after those that were seen.
abbrev pub IsRest : List Envelope → List Envelope → List Envelope → Type 0
IsRest final seen sent = final ≡ seen ++ sent

-- The events of a scan after those that were seen.
scan_new :
    (seen new b : List Envelope)
    → b ≡ seen ++ new
    → IsCounted 0 b
    → (pending (length seen) b ≡ new) × (cursor (length seen) new ≡ length b)
scan_new seen new b e counted =
    let z : 0 + length seen ≡ length seen = omega arith in
    let both : IsCounted 0 (seen ++ new) = subst (IsCounted 0) e counted in
    (
      rw e (subst (λ k. pending k (seen ++ new) ≡ new) z (pending-append 0 seen new both)),
      cursor-IsCounted (length seen) new
            (subst (λ k. IsCounted k new) z (IsCounted-right 0 seen new both))
          ∙ (rw e (sym (length-append seen new))),
    )

-- One scan more, with the sending of the rest.
follow_scan :
    (final seen b : List Envelope) (bs : List (List Envelope))
    → IsCounted 0 final
    → IsEndedOnce final
    → IsPrefix b final
    → IsPrefix seen b
    → IsRest final b (event_source (length b) bs)
    → IsRest final seen (event_source (length seen) (b ∷ bs))
unfolding event_source
follow_scan final seen b bs counted ended (later, p) (new, e) rest =
    let scanned =
      scan_new seen new b e (IsCounted-left 0 b later (subst (IsCounted 0) p counted)) in
    let once : IsEndedOnce (b ++ later) = subst IsEndedOnce p ended in
    let sent : (deliver new).0 ≡ new =
      deliver-IsEndedOnce new
        (IsEndedOnce-right seen new (subst IsEndedOnce e (IsEndedOnce-left b later once))) in
    elim (Bool-cases (deliver new).1) [
      | inl stop ↦
          let t : has_terminal new ≡ true =
            ap has_terminal (sym sent) ∙ deliver-terminal new ∙ stop in
          let over : has_terminal b ≡ true = ap has_terminal e ∙ has_terminal-append seen new t in
          rw (scanned.0, stop)
            (p
              ∙ ap (λ l. b ++ l) (IsEndedOnce-nil b later over once)
              ∙ append-nil b
              ∙ e
              ∙ ap (λ l. seen ++ l) (sym sent))
      | inr go ↦
          rw (scanned.0, go)
            (rw (sent, scanned.1)
              (rest
                ∙ ap (λ l. l ++ event_source (length b) bs) e
                ∙ append_assoc seen new (event_source (length b) bs)))
    ]

-- A connection whose last scan finds all the events is sent those that it had not seen, each once and
-- in order, whatever its other scans find.
pub follow_lem :
    (final seen : List Envelope) (bs : List (List Envelope))
    → IsCounted 0 final
    → IsEndedOnce final
    → IsChain final seen bs
    → IsRest final seen (event_source (length seen) bs)
follow_lem final seen [] counted ended h = absurd h
follow_lem final seen (b ∷ []) counted ended (e, p) =
    follow_scan final seen b [] counted ended ([], sym e ∙ sym (append-nil b)) p
      (unfold event_source in (sym e ∙ sym (append-nil b)))
follow_lem final seen (b ∷ c ∷ bs) counted ended (p, h) =
    follow_scan final seen b (c ∷ bs) counted ended (IsChain-IsPrefix final b (c ∷ bs) h) p
      (follow_lem final b (c ∷ bs) counted ended h)
