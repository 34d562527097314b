-- ===== src/Server/Listing/Sorted.antt =====
-- The listing of runs by `list_runs` of server/app.py is sorted and leaves nothing out.
use mathlib.Core.Logic.{inl, inr}
use mathlib.Core.List.{Perm, Pairwise, append-nil, perm_middle}
use mathlib.Core.List.Perm
use syndicate.Prelude.{ℕ, String, ◌≡◌, false, Bool-cases, List, [], ◌∷◌, ◌++◌, map, subst}
use syndicate.Server.Registry.{RunRegistry, all_known}
use syndicate.Server.Listing.{
  shown, CheckpointTuple, Summary, Latest, is_before, insert_run, sort_runs, live_summary,
  stored_summary, summaries, list_runs,
}
use syndicate.Server.Listing.Latest.{AllStored, AllKept}

module _ (str_float : ℕ → String) where
  -- The text of the first is not before that of the second.
  abbrev pub NotBefore : Summary → Summary → Type 0
  NotBefore s t = is_before (shown str_float s.created_at) (shown str_float t.created_at) ≡ false

  insert_run-perm : (s : Summary) (ts : List Summary) → Perm (insert_run str_float s ts) (s ∷ ts)
  unfolding insert_run
  insert_run-perm s [] = Perm.rfl
  insert_run-perm s (t ∷ ts) =
      elim (Bool-cases (is_before (shown str_float t.created_at) (shown str_float s.created_at))) [
        | inl older ↦ rw older Perm.rfl
        | inr newer ↦ rw newer (Perm.trans (Perm.cons t (insert_run-perm s ts)) (Perm.swap s t ts))
      ]

  sort_runs-perm : (ss out : List Summary) → Perm (sort_runs str_float ss out) (ss ++ out)
  unfolding sort_runs
  sort_runs-perm [] out = Perm.rfl
  sort_runs-perm (s ∷ ss) out =
      Perm.trans (sort_runs-perm ss (insert_run str_float s out))
        (Perm.trans (Perm.append_left ss (insert_run-perm s out)) (perm_middle ss out))

  pub list_runs-perm :
      (g : RunRegistry) (checkpoints : List CheckpointTuple)
      → Perm (list_runs str_float g checkpoints) (summaries g checkpoints)
  unfolding list_runs
  list_runs-perm g checkpoints =
      subst (Perm (list_runs str_float g checkpoints)) (append-nil (summaries g checkpoints))
        (sort_runs-perm (summaries g checkpoints) [])

-- A list of runs for the known runs and the checkpoints that are stored.
pub record IsListing (str_float : ℕ → String) (g : RunRegistry) (checkpoints : List CheckpointTuple)
    (listed : List Summary) : Type 0 where
  pub sorted : Pairwise (NotBefore str_float) listed
  pub stored : Latest
  pub complete : Perm listed (map live_summary (all_known g) ++ map stored_summary stored)
  pub sound : AllStored (all_known g) checkpoints stored
  pub latest : AllKept (all_known g) checkpoints stored
