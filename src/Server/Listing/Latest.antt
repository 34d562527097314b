-- ===== src/Server/Listing/Latest.antt =====
-- The loop of `list_runs` of server/app.py keeps the latest checkpoint of each thread.
use mathlib.Core.Bool.{false≢true}
use mathlib.Core.Logic.{inl, inr}
use mathlib.Core.List.{Mem, mem-cons_self, mem-cons_of_mem}
use syndicate.Prelude.{
  ◌≡◌, ◌⊎◌, ◌∙◌, refl, sym, ap, String, str_eq, eq_iff, true, false, Bool-cases, some, Option-cases,
  List, [], ◌∷◌,
}
use syndicate.Prelude.Maps.{put, find, find-put, find-put-other}
use syndicate.Server.Registry.{RunRecord}
use syndicate.Server.Listing.{
  CheckpointTuple, Latest, is_before, is_known, is_later, keep_latest, latest_by_thread,
}
use syndicate.Server.Listing.Order.{is_before_asymm, not_before_trans}

-- A checkpoint of the thread is kept that is no older than the time.
pub record IsKept (id ts : String) (kept : Latest) : Type 0 where
  pub checkpoint : CheckpointTuple
  pub found : find id kept ≡ some checkpoint
  pub recent : is_before checkpoint.ts ts ≡ false

not_before_refl : (s : String) → is_before s s ≡ false
not_before_refl s = elim (Bool-cases (is_before s s)) [ inl h ↦ is_before_asymm s s h | inr h ↦ h ]

replaced-IsKept :
    (id : String) (c k : CheckpointTuple) (ts : String) (kept : Latest)
    → str_eq c.thread_id id ≡ true
    → is_before k.ts c.ts ≡ true
    → is_before k.ts ts ≡ false
    → IsKept id ts (put c.thread_id c kept)
replaced-IsKept id c k ts kept e newer recent = record {
  checkpoint = c;
  found =
      ap (λ i. find i (put c.thread_id c kept)) (sym ((eq_iff c.thread_id id).0 e))
      ∙ find-put c.thread_id c kept;
  recent = not_before_trans ts k.ts c.ts recent (is_before_asymm k.ts c.ts newer);
}

-- What was kept is kept, or replaced by what is later.
put-IsKept :
    (id : String) (c : CheckpointTuple) (ts : String) (kept : Latest)
    → is_later (find c.thread_id kept) c ≡ true
    → IsKept id ts kept
    → IsKept id ts (put c.thread_id c kept)
put-IsKept id c ts kept later h = elim (Bool-cases (str_eq c.thread_id id)) [
  | inl same ↦
      let there = ap (λ i. find i kept) ((eq_iff c.thread_id id).0 same) ∙ h.found in
      replaced-IsKept id c h.checkpoint ts kept same (sym (ap (λ o. is_later o c) there) ∙ later)
        h.recent
  | inr other ↦ record {
    checkpoint = h.checkpoint;
    found = find-put-other id c.thread_id c kept other ∙ h.found;
    recent = h.recent;
  }
]

module _ (known : List RunRecord) where
  keep_latest-IsKept :
      (id ts : String) (c : CheckpointTuple) (kept : Latest)
      → IsKept id ts kept
      → IsKept id ts (keep_latest known c kept)
  unfolding keep_latest
  keep_latest-IsKept id ts c kept h = elim (Bool-cases (is_known c.thread_id known)) [
    | inl old ↦ rw old h
    | inr new ↦ rw new (elim (Bool-cases (is_later (find c.thread_id kept) c)) [
      | inl later ↦ rw later (put-IsKept id c ts kept later h)
      | inr earlier ↦ rw earlier h
    ])
  ]

  earlier-IsKept :
      (c : CheckpointTuple) (kept : Latest)
      → is_later (find c.thread_id kept) c ≡ false
      → IsKept c.thread_id c.ts kept
  earlier-IsKept c kept earlier = elim (Option-cases (find c.thread_id kept)) [
    | inl absent ↦ absurd (false≢true (sym earlier ∙ ap (λ o. is_later o c) absent))
    | inr (k, there) ↦ record {
      checkpoint = k;
      found = there;
      recent = sym (ap (λ o. is_later o c) there) ∙ earlier;
    }
  ]

  -- A checkpoint of an unknown thread is kept, or one that is no older.
  fresh-IsKept :
      (c : CheckpointTuple) (kept : Latest)
      → is_known c.thread_id known ≡ false
      → IsKept c.thread_id c.ts (keep_latest known c kept)
  unfolding keep_latest
  fresh-IsKept c kept new = rw new (elim (Bool-cases (is_later (find c.thread_id kept) c)) [
    | inl later ↦ rw later (record {
      checkpoint = c;
      found = find-put c.thread_id c kept;
      recent = not_before_refl c.ts;
    })
    | inr earlier ↦ rw earlier (earlier-IsKept c kept earlier)
  ])

  latest_by_thread-IsKept :
      (id ts : String) (cs : List CheckpointTuple) (kept : Latest)
      → IsKept id ts kept
      → IsKept id ts (latest_by_thread known cs kept)
  unfolding latest_by_thread
  latest_by_thread-IsKept id ts [] kept h = h
  latest_by_thread-IsKept id ts (c ∷ cs) kept h =
      latest_by_thread-IsKept id ts cs _ (keep_latest-IsKept id ts c kept h)

  -- Each checkpoint is of a thread that is known, or one of its thread that is no older is kept.
  abbrev pub AllKept : List CheckpointTuple → Latest → Type 0
  AllKept [] kept = Unit
  AllKept (c ∷ cs) kept =
      ((is_known c.thread_id known ≡ true) ⊎ IsKept c.thread_id c.ts kept) × AllKept cs kept

  pub latest_by_thread-AllKept :
      (cs : List CheckpointTuple) (kept : Latest) → AllKept cs (latest_by_thread known cs kept)
  unfolding latest_by_thread
  latest_by_thread-AllKept [] kept = tt
  latest_by_thread-AllKept (c ∷ cs) kept = (
    elim (Bool-cases (is_known c.thread_id known)) [
      | inl old ↦ inl old
      | inr new ↦ inr (latest_by_thread-IsKept c.thread_id c.ts cs _ (fresh-IsKept c kept new))
    ],
    latest_by_thread-AllKept cs (keep_latest known c kept),
  )

  -- An entry is a checkpoint of its thread, one of those in the list, and the thread is not known.
  pub record IsStored (all : List CheckpointTuple) (id : String) (c : CheckpointTuple)
      : Type 0 where
    pub own : c.thread_id ≡ id
    pub unknown : is_known id known ≡ false
    pub listed : Mem c all

  abbrev pub AllStored : List CheckpointTuple → Latest → Type 0
  AllStored all [] = Unit
  AllStored all ((id, c) ∷ kept) = IsStored all id c × AllStored all kept

  put-AllStored :
      (all : List CheckpointTuple) (c : CheckpointTuple) (kept : Latest)
      → IsStored all c.thread_id c
      → AllStored all kept
      → AllStored all (put c.thread_id c kept)
  unfolding put
  put-AllStored all c [] h rest = (h, tt)
  put-AllStored all c ((id, k) ∷ kept) h rest = elim (Bool-cases (str_eq id c.thread_id)) [
    | inl same ↦ rw same (h, rest.1)
    | inr other ↦ rw other (rest.0, put-AllStored all c kept h rest.1)
  ]

  keep_latest-AllStored :
      (all : List CheckpointTuple) (c : CheckpointTuple) (kept : Latest)
      → Mem c all
      → AllStored all kept
      → AllStored all (keep_latest known c kept)
  unfolding keep_latest
  keep_latest-AllStored all c kept m h = elim (Bool-cases (is_known c.thread_id known)) [
    | inl old ↦ rw old h
    | inr new ↦ rw new (elim (Bool-cases (is_later (find c.thread_id kept) c)) [
      | inl later ↦
          rw later (put-AllStored all c kept (record { own = refl; unknown = new; listed = m }) h)
      | inr earlier ↦ rw earlier h
    ])
  ]

  pub latest_by_thread-AllStored :
      (all cs : List CheckpointTuple) (kept : Latest)
      → ((c : CheckpointTuple) → Mem c cs → Mem c all)
      → AllStored all kept
      → AllStored all (latest_by_thread known cs kept)
  unfolding latest_by_thread
  latest_by_thread-AllStored all [] kept into h = h
  latest_by_thread-AllStored all (c ∷ cs) kept into h =
      latest_by_thread-AllStored all cs _ (λ x m. into x (mem-cons_of_mem c m))
        (keep_latest-AllStored all c kept (into c mem-cons_self) h)
