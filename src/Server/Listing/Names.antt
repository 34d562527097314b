-- ===== src/Server/Listing/Names.antt =====
-- `list_runs` of server/app.py names each run once.
use mathlib.Core.Bool.{true≢false, Bool-set}
use mathlib.Core.Logic.{inl, inr}
use mathlib.Core.Logic.Or
use mathlib.Core.List.{
  Pairwise, Mem, Nodup, Nodup-append, eq-or-mem_of_mem-cons, map-append, not-mem-nil,
}
use mathlib.Core.List.Perm
use syndicate.Prelude.{
  ℕ, ◌≡◌, ◌∙◌, refl, sym, ap, subst, String, str_eq, true, false, Bool-cases, List, [], ◌∷◌, ◌++◌,
  map,
}
use syndicate.Prelude.Maps.{find}
use syndicate.Prelude.Keys.{differ, keys, put-Nodup}
use syndicate.Server.Registry.{RunRecord, RunRegistry, new_registry, all_known}
use syndicate.Server.OneActive.{Event, after_events}
use syndicate.Server.Listing.{
  CheckpointTuple, Summary, Latest, is_known, is_later, keep_latest, latest_by_thread, live_summary,
  stored_summary, summaries, list_runs,
}
use syndicate.Server.Listing.Latest.{AllStored, latest_by_thread-AllStored}
use syndicate.Server.Listing.Keyed.{
  AllOwn, IsKeyed, IsSteady, after_events-IsKeyed, new_registry-IsKeyed,
}
use syndicate.Server.Listing.Sorted.{list_runs-perm}

abbrev pub names : List Summary → List String
names = map (λ (s : Summary). s.run_id)

live_names :
    (runs : List (String × RunRecord))
    → AllOwn runs
    → names (map live_summary (map (λ (entry : String × RunRecord). entry.1) runs)) ≡ keys runs
live_names [] h = refl
live_names ((k, r) ∷ runs) h = λ i. h.0 i ∷ live_names runs h.1 i

stored_names : (kept : Latest) → names (map stored_summary kept) ≡ keys kept
stored_names [] = refl
stored_names ((k, c) ∷ kept) = ap (◌∷◌ k) (stored_names kept)

mem_keys-is_known :
    (i : String) (runs : List (String × RunRecord))
    → AllOwn runs
    → Mem i (keys runs)
    → is_known i (map (λ (entry : String × RunRecord). entry.1) runs) ≡ true
unfolding is_known
mem_keys-is_known i [] h m = absurd (not-mem-nil m)
mem_keys-is_known i ((k, r) ∷ runs) h m = elim (Bool-cases (str_eq r.run_id i)) [
  | inl same ↦ rw same refl
  | inr other ↦ rw other (
      Or.elim (Bool-set _ _) (eq-or-mem_of_mem-cons m)
        (λ p. absurd (differ r.run_id i other (h.0 ∙ sym p))) (mem_keys-is_known i runs h.1))
]

module _ (known : List RunRecord) (all : List CheckpointTuple) where
  mem_keys-unknown :
      (i : String) (kept : Latest)
      → AllStored known all kept
      → Mem i (keys kept)
      → is_known i known ≡ false
  mem_keys-unknown i [] h m = absurd (not-mem-nil m)
  mem_keys-unknown i ((k, c) ∷ kept) h m =
      Or.elim (Bool-set _ _) (eq-or-mem_of_mem-cons m)
        (λ p. ap (λ j. is_known j known) p ∙ h.0.unknown) (mem_keys-unknown i kept h.1)

keep_latest-Nodup :
    (known : List RunRecord) (c : CheckpointTuple) (kept : Latest)
    → Nodup (keys kept)
    → Nodup (keys (keep_latest known c kept))
unfolding keep_latest
keep_latest-Nodup known c kept h = elim (Bool-cases (is_known c.thread_id known)) [
  | inl old ↦ rw old h
  | inr new ↦ rw new (elim (Bool-cases (is_later (find c.thread_id kept) c)) [
    | inl later ↦ rw later (put-Nodup c.thread_id c kept h)
    | inr earlier ↦ rw earlier h
  ])
]

latest_by_thread-Nodup :
    (known : List RunRecord) (cs : List CheckpointTuple) (kept : Latest)
    → Nodup (keys kept)
    → Nodup (keys (latest_by_thread known cs kept))
unfolding latest_by_thread
latest_by_thread-Nodup known [] kept h = h
latest_by_thread-Nodup known (c ∷ cs) kept h =
    latest_by_thread-Nodup known cs _ (keep_latest-Nodup known c kept h)

-- The names before they are sorted.
summaries-names :
    (g : RunRegistry) (cs : List CheckpointTuple)
    → IsKeyed g
    → names (summaries g cs) ≡ keys g.runs ++ keys (latest_by_thread (all_known g) cs [])
unfolding summaries all_known
summaries-names g cs h =
    let stored = latest_by_thread (all_known g) cs [] in
    map-append (λ (s : Summary). s.run_id) (map live_summary (all_known g))
      (map stored_summary stored)
    ∙ (λ i. live_names g.runs h.own i ++ stored_names stored i)

summaries-Nodup :
    (g : RunRegistry) (cs : List CheckpointTuple) → IsKeyed g → Nodup (names (summaries g cs))
unfolding all_known
summaries-Nodup g cs h =
    let stored = latest_by_thread (all_known g) cs [] in
    let sound = latest_by_thread-AllStored (all_known g) cs cs [] (λ c m. m) tt in
    subst Nodup (sym (summaries-names g cs h)) (
      Nodup-append.1 (
        h.unique,
        latest_by_thread-Nodup (all_known g) cs [] Pairwise.nil,
        λ i live kept. true≢false (
            sym (mem_keys-is_known i g.runs h.own live)
            ∙ mem_keys-unknown (all_known g) cs i stored sound kept),
      ))

-- After any requests, releases and changes of records by their tasks, which keep a record's id, the
-- list of runs names no run twice.
pub list_runs-Nodup :
    (str_float : ℕ → String) (es : List Event) (checkpoints : List CheckpointTuple)
    → IsSteady es
    → Nodup (names (list_runs str_float (after_events es new_registry) checkpoints))
unfolding list_runs
list_runs-Nodup str_float es checkpoints s =
    let g = after_events es new_registry in
    let k = after_events-IsKeyed es new_registry s new_registry-IsKeyed in
    Perm.nodup
      (Perm.symm (Perm.map (λ (t : Summary). t.run_id) (list_runs-perm str_float g checkpoints)))
      (summaries-Nodup g checkpoints k)
