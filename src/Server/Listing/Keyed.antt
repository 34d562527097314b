-- ===== src/Server/Listing/Keyed.antt =====
-- Every record of the registry stands under its own id, and no id stands twice.
use mathlib.Core.Logic.{inl, inr}
use mathlib.Core.List.{Pairwise, Nodup}
use syndicate.Prelude.{
  ℕ, ◌≡◌, ◌∙◌, refl, sym, ap, subst, String, str_eq, Bool-cases, List, [], ◌∷◌, is_none,
}
use syndicate.Prelude.Maps.{put}
use syndicate.Prelude.Keys.{keys, put-Nodup}
use syndicate.Server.Registry.{
  RunRecord, RunRegistry, new_registry, new_record, try_start, finish, is_text,
}
use syndicate.Server.App.{create_run}
use syndicate.Server.OneActive.{Event, request, release, change, alter, happen, after_events}

-- A record stands under its own id.
abbrev pub AllOwn : List (String × RunRecord) → Type 0
AllOwn [] = Unit
AllOwn ((k, r) ∷ runs) = (r.run_id ≡ k) × AllOwn runs

pub record IsKeyed (g : RunRegistry) : Type 0 where
  pub own : AllOwn g.runs
  pub unique : Nodup (keys g.runs)

put-AllOwn :
    (k : String) (r : RunRecord) (runs : List (String × RunRecord))
    → r.run_id ≡ k
    → AllOwn runs
    → AllOwn (put k r runs)
unfolding put
put-AllOwn k r [] e h = (e, tt)
put-AllOwn k r ((j, q) ∷ runs) e h = elim (Bool-cases (str_eq j k)) [
  | inl same ↦ rw same (e, h.1)
  | inr other ↦ rw other (h.0, put-AllOwn k r runs e h.1)
]

alter-AllOwn :
    (k : String) (f : RunRecord → RunRecord) (runs : List (String × RunRecord))
    → ((r : RunRecord) → (f r).run_id ≡ r.run_id)
    → AllOwn runs
    → AllOwn (alter k f runs)
unfolding alter
alter-AllOwn k f [] e h = tt
alter-AllOwn k f ((j, q) ∷ runs) e h = elim (Bool-cases (str_eq j k)) [
  | inl same ↦ rw same (e q ∙ h.0, h.1)
  | inr other ↦ rw other (h.0, alter-AllOwn k f runs e h.1)
]

keys-alter :
    (k : String) (f : RunRecord → RunRecord) (runs : List (String × RunRecord))
    → keys (alter k f runs) ≡ keys runs
unfolding alter
keys-alter k f [] = refl
keys-alter k f ((j, q) ∷ runs) = elim (Bool-cases (str_eq j k)) [
  | inl same ↦ rw same refl
  | inr other ↦ rw other (ap (◌∷◌ j) (keys-alter k f runs))
]

-- A task does not change its record's id.
abbrev pub IsSteady : List Event → Type 0
IsSteady [] = Unit
IsSteady (change k f ∷ es) = ((r : RunRecord) → (f r).run_id ≡ r.run_id) × IsSteady es
IsSteady (request c i q ∷ es) = IsSteady es
IsSteady (release i ∷ es) = IsSteady es

create_run-IsKeyed :
    (c : ℕ) (i q : String) (g : RunRegistry) → IsKeyed g → IsKeyed (create_run c i q g).0
unfolding create_run try_start new_record
create_run-IsKeyed c i q g h = elim (Bool-cases (is_none g.active_run_id)) [
  | inl free ↦ rw free (record {
    own = put-AllOwn i (new_record c i q) g.runs refl h.own;
    unique = put-Nodup i (new_record c i q) g.runs h.unique;
  })
  | inr busy ↦ rw busy h
]

happen-IsKeyed :
    (e : Event) (g : RunRegistry) → IsSteady (e ∷ []) → IsKeyed g → IsKeyed (happen e g)
unfolding finish
happen-IsKeyed (request c i q) g s h = create_run-IsKeyed c i q g h
happen-IsKeyed (release i) g s h = elim (Bool-cases (is_text g.active_run_id i)) [
  | inl own ↦ rw own (record { own = h.own; unique = h.unique })
  | inr other ↦ rw other h
]
happen-IsKeyed (change k f) g s h = record {
  own = alter-AllOwn k f g.runs s.0 h.own;
  unique = subst Nodup (sym (keys-alter k f g.runs)) h.unique;
}

pub after_events-IsKeyed :
    (es : List Event) (g : RunRegistry) → IsSteady es → IsKeyed g → IsKeyed (after_events es g)
after_events-IsKeyed [] g s h = h
after_events-IsKeyed (request c i q ∷ es) g s h =
    after_events-IsKeyed es _ s (happen-IsKeyed (request c i q) g tt h)
after_events-IsKeyed (release i ∷ es) g s h =
    after_events-IsKeyed es _ s (happen-IsKeyed (release i) g tt h)
after_events-IsKeyed (change k f ∷ es) g s h =
    after_events-IsKeyed es _ s.1 (happen-IsKeyed (change k f) g (s.0, tt) h)

pub new_registry-IsKeyed : IsKeyed new_registry
unfolding new_registry
new_registry-IsKeyed = record { own = tt; unique = Pairwise.nil }
