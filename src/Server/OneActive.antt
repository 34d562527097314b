-- ===== src/Server/OneActive.antt =====
-- One run is active at a time: server/registry.py under the handlers of server/app.py.
use mathlib.Core.Logic.{inl, inr}
use syndicate.Prelude.{
  ℕ, ◌≡◌, ◌∙◌, ap, refl, String, Bool-cases, false, none, some, List, [], ◌∷◌, str_eq, is_none,
  if◌then◌else◌,
}
use text.Mathlib.TextPositions.{eq_refl}
use syndicate.Prelude.Maps.{find, find-put}
use syndicate.Server.Registry.{RunRecord, RunRegistry, new_record, try_start, finish, get}
use syndicate.Server.App.{create_run, respond, accepted, refused}

-- What happens to a registry: a request, the release of a run, and a change of a record by its task.
pub data Event : Type 0 where
  request : ℕ → String → String → Event
  release : String → Event
  change : String → (RunRecord → RunRecord) → Event

-- The record that the registry holds under an id, changed in place.
unfoldable pub alter :
    String → (RunRecord → RunRecord) → List (String × RunRecord) → List (String × RunRecord)
alter k f [] = []
alter k f ((j, r) ∷ runs) = if str_eq j k then (j, f r) ∷ runs else (j, r) ∷ alter k f runs

abbrev pub happen : Event → RunRegistry → RunRegistry
happen (request created_at run_id raw_request) g = (create_run created_at run_id raw_request g).0
happen (release run_id) g = finish run_id g
happen (change run_id f) g = record g { runs = alter run_id f g.runs }

abbrev pub after_events : List Event → RunRegistry → RunRegistry
after_events [] g = g
after_events (e ∷ es) g = after_events es (happen e g)

-- No event releases the run.
abbrev pub IsHeld : String → List Event → Type 0
IsHeld run_id [] = Unit
IsHeld run_id (release i ∷ es) = (str_eq run_id i ≡ false) × IsHeld run_id es
IsHeld run_id (_ ∷ es) = IsHeld run_id es

pub record IsActive (run_id : String) (g : RunRegistry) : Type 0 where
  pub active : g.active_run_id ≡ some run_id
  pub known : is_none (find run_id g.runs) ≡ false

find-alter :
    (k i : String) (f : RunRecord → RunRecord) (runs : List (String × RunRecord))
    → is_none (find k (alter i f runs)) ≡ is_none (find k runs)
unfolding find alter
find-alter k i f [] = refl
find-alter k i f ((j, q) ∷ runs) =
    let rest = find-alter k i f runs in
    elim (Bool-cases (str_eq j i)) [
      | inl e ↦ rw e (elim (Bool-cases (str_eq j k)) [ inl d ↦ rw d refl | inr d ↦ rw d refl ])
      | inr e ↦ rw e (elim (Bool-cases (str_eq j k)) [ inl d ↦ rw d refl | inr d ↦ rw d rest ])
    ]

happen-IsActive :
    (run_id : String) (e : Event) (g : RunRegistry)
    → IsHeld run_id (e ∷ [])
    → IsActive run_id g
    → IsActive run_id (happen e g)
unfolding create_run try_start finish
happen-IsActive run_id (request c i q) g held a = record {
  active = rw a.active refl;
  known = rw a.active a.known;
}
happen-IsActive run_id (release i) g (other, _) a = record {
  active = rw (a.active, other) refl;
  known = rw (a.active, other) a.known;
}
happen-IsActive run_id (change i f) g held a = record {
  active = a.active;
  known = find-alter run_id i f g.runs ∙ a.known;
}

pub after_events-IsActive :
    (run_id : String) (es : List Event) (g : RunRegistry)
    → IsHeld run_id es
    → IsActive run_id g
    → IsActive run_id (after_events es g)
after_events-IsActive run_id [] g held a = a
after_events-IsActive run_id (request c i q ∷ es) g held a =
    after_events-IsActive run_id es _ held (happen-IsActive run_id (request c i q) g tt a)
after_events-IsActive run_id (release i ∷ es) g (other, held) a =
    after_events-IsActive run_id es _ held (happen-IsActive run_id (release i) g (other, tt) a)
after_events-IsActive run_id (change i f ∷ es) g held a =
    after_events-IsActive run_id es _ held (happen-IsActive run_id (change i f) g tt a)

pub accepted-IsActive :
    (created_at : ℕ) (run_id raw_request : String) (g : RunRegistry)
    → g.active_run_id ≡ none
    → IsActive run_id (create_run created_at run_id raw_request g).0
unfolding create_run try_start
accepted-IsActive created_at run_id raw_request g free = record {
  active = rw free refl;
  known = rw (free, find-put run_id (new_record created_at run_id raw_request) g.runs) refl;
}

try_start-refused :
    (run_id : String) (c : ℕ) (i q : String) (g : RunRegistry)
    → IsActive run_id g
    → try_start c i q g ≡ (g, none)
unfolding try_start
try_start-refused run_id c i q g a = rw a.active refl

-- After a request is accepted, whatever happens short of the release of its run, another request is
-- answered with 409 and the active run's id and changes nothing, the run is known, and once it is
-- released the next request is accepted.
pub one_active :
    (created_at : ℕ) (run_id raw_request : String) (g : RunRegistry) (es : List Event) (c : ℕ)
    (i q : String)
    → g.active_run_id ≡ none
    → IsHeld run_id es
    → let h = after_events es (create_run created_at run_id raw_request g).0 in
      (create_run c i q h ≡ (h, refused h, none))
      × (h.active_run_id ≡ some run_id)
      × (is_none (get run_id h) ≡ false)
      × ((create_run c i q (finish run_id h)).1 ≡ accepted i)
      × ((create_run c i q (finish run_id h)).2 ≡ some (new_record c i q))
unfolding create_run try_start finish get
one_active created_at run_id raw_request g es c i q free held =
    let a =
      after_events-IsActive run_id es _ held
        (accepted-IsActive created_at run_id raw_request g free) in
    let h = after_events es (create_run created_at run_id raw_request g).0 in
    (
      ap (respond i) (try_start-refused run_id c i q h a),
      a.active,
      a.known,
      rw (a.active, eq_refl run_id) refl,
      rw (a.active, eq_refl run_id) refl,
    )
