-- ===== src/Server/Cursor.antt =====
-- What a connection to `stream_run` of server/app.py is sent.
use mathlib.Core.Logic.{◌⊎◌, inl, inr}
use syndicate.Prelude.{
  ℕ, suc, ◌+◌, ◌-◌, ◌≤◌, ◌≡◌, ◌∙◌, refl, ap, sym, subst, Bool, Bool-cases, true, false, Option,
  none, some, List, [], ◌∷◌, ◌++◌, ◌||◌, map, length, length-append, ltb, arith,
}
use syndicate.Server.Events.{Envelope, is_terminal}
use syndicate.Server.Registry.{backlog_maxlen, shifted}
use syndicate.Server.Backlog.{numbers, IsTail}
use syndicate.Server.App.{pending, deliver, cursor, is_after, event_source}

-- The events carry the numbers after `k`, one by one.
abbrev pub IsCounted : ℕ → List Envelope → Type 0
IsCounted k [] = Unit
IsCounted k (e ∷ es) = (e.seq ≡ some (k + 1)) × IsCounted (k + 1) es

abbrev first : List (Option ℕ) → Option ℕ
first [] = none
first (n ∷ ns) = n

pub numbers-IsCounted :
    (k : ℕ) (es : List Envelope)
    → map (λ (e : Envelope). e.seq) es ≡ numbers k (length es)
    → IsCounted k es
unfolding numbers
numbers-IsCounted k [] h = tt
numbers-IsCounted k (e ∷ es) h = (ap first h, numbers-IsCounted (k + 1) es (ap shifted h))

pub IsCounted-append :
    (k : ℕ) (xs ys : List Envelope)
    → IsCounted k xs
    → IsCounted (k + length xs) ys
    → IsCounted k (xs ++ ys)
IsCounted-append k [] ys h g = let e : k + 0 ≡ k = omega arith in subst (λ j. IsCounted j ys) e g
IsCounted-append k (x ∷ xs) ys (a, h) g =
    let e : k + suc (length xs) ≡ k + 1 + length xs = omega arith in
    (a, IsCounted-append (k + 1) xs ys h (subst (λ j. IsCounted j ys) e g))

pub pending-all :
    (last k : ℕ) (es : List Envelope) → last ≤ k → IsCounted k es → pending last es ≡ es
unfolding pending
pending-all last k [] b h = refl
pending-all last k (e ∷ es) b (a, h) =
    let after : is_after last e.seq ≡ true = rw a (ground arith) in
    let n : last ≤ k + 1 = omega arith in
    rw after (ap (λ l. e ∷ l) (pending-all last (k + 1) es n h))

-- The events after `last` of those that carry the numbers after `k`.
pending-IsCounted :
    (last k : ℕ) (es : List Envelope)
    → k ≤ last
    → last ≤ k + length es
    → IsCounted k es
    → IsCounted last (pending last es) × (last + length (pending last es) ≡ k + length es)
unfolding pending
pending-IsCounted last k [] b c h = (tt, omega arith)
pending-IsCounted last k (e ∷ es) b c (a, h) = elim (Bool-cases (ltb last (k + 1))) [
  | inl now ↦
      let after : is_after last e.seq ≡ true = rw a now in
      let same : k ≡ last = ground arith in
      let all = pending-all last (k + 1) es (omega arith) h in
      rw (after, all) (subst (λ j. IsCounted j (e ∷ es)) same (a, h), omega arith)
  | inr past ↦
      let before : is_after last e.seq ≡ false = rw a past in
      let rest = pending-IsCounted last (k + 1) es (ground arith) (omega arith) h in
      rw before (rest.0, rest.1 ∙ (omega arith))
]

deliver-IsCounted : (k : ℕ) (es : List Envelope) → IsCounted k es → IsCounted k (deliver es).0
unfolding deliver
deliver-IsCounted k [] h = tt
deliver-IsCounted k (e ∷ es) (a, h) =
    let rest = deliver-IsCounted (k + 1) es h in
    elim (Bool-cases (is_terminal e.kind)) [ inl t ↦ rw t (a, tt) | inr t ↦ rw t (a, rest) ]

-- A scan that meets no terminal event sends all that it found.
pub deliver-all : (es : List Envelope) → (deliver es).1 ≡ false → (deliver es).0 ≡ es
unfolding deliver
deliver-all [] h = refl
deliver-all (e ∷ es) h = elim (Bool-cases (is_terminal e.kind)) [
  | inl t ↦ absurd (cc (rw t at h))
  | inr t ↦ rw t (ap (λ l. e ∷ l) (deliver-all es (rw t at h)))
]

pub cursor-IsCounted : (k : ℕ) (es : List Envelope) → IsCounted k es → cursor k es ≡ k + length es
cursor-IsCounted k [] h = omega arith
cursor-IsCounted k (e ∷ es) (a, h) = rw a (cursor-IsCounted (k + 1) es h ∙ (omega arith))

-- The scans of a connection, with the count of events at each: a scan's backlog holds the last
-- events, and none that the connection has not been sent is lost from it.
abbrev pub IsWatched : ℕ → List (List Envelope) → Type 0
IsWatched last [] = Unit
IsWatched last (es ∷ backlogs) =
    (count : ℕ) × IsTail (λ (e : Envelope). e.seq) backlog_maxlen count es
    × (count - length es ≤ last)
    × (last ≤ count)
    × IsWatched count backlogs

-- The count of events at the last scan.
abbrev pub final : (last : ℕ) (backlogs : List (List Envelope)) → IsWatched last backlogs → ℕ
final last [] h = last
final last (es ∷ backlogs) (count, _, _, _, h) = final count backlogs h

-- Whether a scan has met the event that ends a run.
abbrev pub has_terminal : List Envelope → Bool
has_terminal [] = false
has_terminal (e ∷ es) = is_terminal e.kind || has_terminal es

-- An event that ends a run is the last one.
abbrev pub IsEndedOnce : List Envelope → Type 0
IsEndedOnce [] = Unit
IsEndedOnce (e ∷ es) = ((is_terminal e.kind ≡ false) ⊎ (es ≡ [])) × IsEndedOnce es

scan-IsCounted :
    (last count : ℕ) (es : List Envelope)
    → IsTail (λ (e : Envelope). e.seq) backlog_maxlen count es
    → count - length es ≤ last
    → last ≤ count
    → IsCounted last (pending last es) × (last + length (pending last es) ≡ count)
scan-IsCounted last count es t seen bound =
    let n : count - length es + length es ≡ count = ground (arith, t.kept) in
    let p =
      pending-IsCounted last (count - length es) es seen (omega (arith, n))
        (numbers-IsCounted _ es t.numbered) in
    (p.0, p.1 ∙ n)

pub has_terminal-append :
    (xs ys : List Envelope) → has_terminal ys ≡ true → has_terminal (xs ++ ys) ≡ true
has_terminal-append [] ys h = h
has_terminal-append (x ∷ xs) ys h = elim (Bool-cases (is_terminal x.kind)) [
  | inl t ↦ rw t refl
  | inr t ↦ rw t (has_terminal-append xs ys h)
]

IsEndedOnce-append :
    (xs ys : List Envelope) → has_terminal xs ≡ false → IsEndedOnce ys → IsEndedOnce (xs ++ ys)
IsEndedOnce-append [] ys t h = h
IsEndedOnce-append (x ∷ xs) ys t h = elim (Bool-cases (is_terminal x.kind)) [
  | inl e ↦ absurd (cc (rw e at t))
  | inr e ↦ (inl e, IsEndedOnce-append xs ys (rw e at t) h)
]

pub deliver-terminal : (es : List Envelope) → has_terminal (deliver es).0 ≡ (deliver es).1
unfolding deliver
deliver-terminal [] = refl
deliver-terminal (e ∷ es) =
    let rest = deliver-terminal es in
    elim (Bool-cases (is_terminal e.kind)) [ inl t ↦ rw (t, t) refl | inr t ↦ rw (t, t) rest ]

deliver-IsEndedOnce : (es : List Envelope) → IsEndedOnce (deliver es).0
unfolding deliver
deliver-IsEndedOnce [] = tt
deliver-IsEndedOnce (e ∷ es) =
    let rest = deliver-IsEndedOnce es in
    elim (Bool-cases (is_terminal e.kind)) [
      | inl t ↦ rw t (inr refl, tt)
      | inr t ↦ rw t (inl t, rest)
    ]

-- What a connection is sent.
abbrev pub IsFollowed :
    (last : ℕ) (backlogs : List (List Envelope)) → IsWatched last backlogs → Type 0
IsFollowed last backlogs h =
    IsCounted last (event_source last backlogs)
    × IsEndedOnce (event_source last backlogs)
    × ((has_terminal (event_source last backlogs) ≡ true)
        ⊎ (last + length (event_source last backlogs) ≡ final last backlogs h))

-- The scans after one that met no terminal event.
event_source-rest :
    (last count : ℕ) (es : List Envelope) (backlogs : List (List Envelope))
    (h : IsWatched count backlogs)
    → IsCounted last (pending last es) × (last + length (pending last es) ≡ count)
    → (deliver (pending last es)).1 ≡ false
    → IsFollowed count backlogs h
    → (t : IsTail (λ (e : Envelope). e.seq) backlog_maxlen count es)
    → (seen : count - length es ≤ last) (bound : last ≤ count)
    → IsFollowed last (es ∷ backlogs) (count, t, seen, bound, h)
unfolding event_source
event_source-rest last count es backlogs h (counted, n) goes (a, b, c) t seen bound =
    let all : (deliver (pending last es)).0 ≡ pending last es =
      deliver-all (pending last es) goes in
    let reached : cursor last (pending last es) ≡ count =
      cursor-IsCounted last (pending last es) counted ∙ n in
    let calm : has_terminal (pending last es) ≡ false =
      ap has_terminal (sym all) ∙ deliver-terminal (pending last es) ∙ goes in
    rw (goes, all, reached)
      (
        IsCounted-append last (pending last es) (event_source count backlogs) counted
            (subst (λ j. IsCounted j (event_source count backlogs)) (sym n) a),
        IsEndedOnce-append (pending last es) (event_source count backlogs) calm b,
        elim c [
          | inl e ↦ inl (has_terminal-append (pending last es) (event_source count backlogs) e)
          | inr e ↦
              inr
                (omega (arith, length-append (pending last es) (event_source count backlogs), n, e))
        ],
      )

-- A connection whose scans lose nothing is sent the events that follow its cursor, each once and in
-- order. Nothing follows an event that ends the run, and if it is sent none, it is sent all the
-- events up to its last scan.
pub event_source-IsCounted :
    (last : ℕ) (backlogs : List (List Envelope)) (h : IsWatched last backlogs)
    → IsFollowed last backlogs h
unfolding event_source
event_source-IsCounted last [] h = (tt, tt, inr (omega arith))
event_source-IsCounted last (es ∷ backlogs) (count, t, seen, bound, h) =
    let p = scan-IsCounted last count es t seen bound in
    elim (Bool-cases (deliver (pending last es)).1) [
      | inl ends ↦ rw ends (
        deliver-IsCounted last (pending last es) p.0,
        deliver-IsEndedOnce (pending last es),
        inl (deliver-terminal (pending last es) ∙ ends),
      )
      | inr goes ↦
          event_source-rest last count es backlogs h p goes
            (event_source-IsCounted count backlogs h) t seen bound
    ]
