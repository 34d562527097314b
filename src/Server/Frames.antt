-- ===== src/Server/Frames.antt =====
-- What the service sends of a run and of its state is redacted and can be dumped.
use mathlib.Core.Logic.{inl, inr}
use syndicate.Prelude.{
  ℕ, ◌≡◌, ◌⊎◌, refl, ap, String, ◌<>◌, Bool, true, false, Bool-cases, Option, none, some, List, [],
  ◌∷◌, subst, sym,
}
use syndicate.State.{AgentState}
use syndicate.Host.{Host}
use syndicate.Engine.{Engine, Ending}
use syndicate.Server.Value.{Value, nullable, Fields, update_fields}
use syndicate.Server.Events.{Python, Envelope, redact_text}
use syndicate.Server.Registry.{new_record}
use syndicate.Server.Runner.{drive_run}
use syndicate.Server.Redaction.{
  IsPlain, HasPlain, IsSafe, AllSafe, redact_fields-HasPlain, drive_run-AllSafe,
}
use syndicate.Server.Service.{
  Answer, answered, refuses, no_state, is_blank, with_ledger, get_run_state, number_or_null, framed,
  envelope_value, format_sse,
}

abbrev AnyText : String → Type 0
AnyText s = Unit

nullable-IsPlain : (o : Option String) → IsPlain AnyText (nullable o)
unfolding IsPlain
nullable-IsPlain none = tt
nullable-IsPlain (some s) = tt

number_or_null-IsPlain : (o : Option ℕ) → IsPlain AnyText (number_or_null o)
unfolding IsPlain
number_or_null-IsPlain none = tt
number_or_null-IsPlain (some n) = tt

module _ (py : Python) where
  IsSafe-HasPlain : (fs : Fields) → IsSafe py AnyText fs → HasPlain AnyText fs
  unfolding IsPlain
  IsSafe-HasPlain fs (inl h) = h
  IsSafe-HasPlain fs (inr cut) = subst (HasPlain AnyText) (sym cut.marker) (tt, (tt, (tt, tt)))

  envelope_value-IsPlain :
      (e : Envelope) → IsSafe py AnyText e.payload → IsPlain AnyText (envelope_value e)
  unfolding IsPlain envelope_value
  envelope_value-IsPlain e h = (
    number_or_null-IsPlain e.seq,
    (tt, (tt, (tt, (nullable-IsPlain e.node, (IsSafe-HasPlain e.payload h, tt))))),
  )

-- What `json.dumps` is known to do: it has a text for plain JSON.
abbrev pub DumpsPlain : (Value → Option String) → Type 0
DumpsPlain dumps = (v : Value) → IsPlain AnyText v → (t : String) × (dumps v ≡ some t)

module _ (dumps : Value → Option String) where
  abbrev pub AllFramed : List Envelope → Type 0
  AllFramed [] = Unit
  AllFramed (e ∷ es) = ((frame : String) × (format_sse dumps e ≡ some frame)) × AllFramed es

  module _ (total : DumpsPlain dumps) (py : Python) where
    format_sse-frame :
        (e : Envelope)
        → IsSafe py AnyText e.payload
        → (frame : String) × (format_sse dumps e ≡ some frame)
    unfolding format_sse
    format_sse-frame e h =
        let dumped = total (envelope_value e) (envelope_value-IsPlain py e h) in
        ("data: " <> dumped.0 <> "\n\n", ap framed dumped.1)

    AllSafe-AllFramed : (es : List Envelope) → AllSafe py AnyText es → AllFramed es
    AllSafe-AllFramed [] h = tt
    AllSafe-AllFramed (e ∷ es) h = (format_sse-frame e h.0, AllSafe-AllFramed es h.1)

    -- If `json.dumps` has a text for plain JSON, then `format_sse` has a frame for every event in the
    -- backlog of a new run that was driven, so that no event breaks the stream.
    pub format_sse-drive_run :
        (now : ℕ → String) {W : Type 0} (engine : Engine W) (host : Host W)
        (message : Ending → String) (created_at : ℕ) (run_id raw_request : String) (w : W)
        → AllFramed
            (drive_run py now engine host message
              (new_record created_at run_id raw_request)
              w).0.backlog
    format_sse-drive_run now engine host message created_at run_id raw_request w =
        AllSafe-AllFramed _ (
          drive_run-AllSafe py now AnyText (λ s. tt) engine host message created_at run_id
            raw_request w)

-- Whether the checkpointer has no values of a run.
abbrev pub is_absent : Option AgentState → Bool
is_absent none = true
is_absent (some s) = is_blank (update_fields s)

-- The two responses to a request for the state of a run.
abbrev pub IsStateAnswer :
    (String → String) → (String → Type 0) → String → Option AgentState → Answer Fields → Type 0
IsStateAnswer repr P run_id found answer =
    ((is_absent found ≡ true) × (answer ≡ refuses (no_state repr run_id)))
    ⊎ ((is_absent found ≡ false) × ((fs : Fields) × (answer ≡ answered fs) × HasPlain P fs))

-- If `P` holds of every text that was redacted, then a request for the state of a run is refused with
-- 404 and the run's name, if the checkpointer has no values of it, and is answered otherwise, with
-- plain JSON in which `P` holds of every text that is not a key.
pub get_run_state-IsStateAnswer :
    (repr : String → String) (py : Python) (P : String → Type 0)
    → ((s : String) → P (redact_text py s))
    → (run_id : String) (found : Option AgentState)
    → IsStateAnswer repr P run_id found (get_run_state repr py run_id found)
unfolding get_run_state
get_run_state-IsStateAnswer repr py P redacts run_id none = inl (refl, refl)
get_run_state-IsStateAnswer repr py P redacts run_id (some s) =
    elim (Bool-cases (is_blank (update_fields s))) [
      | inl blank ↦ rw blank (inl (refl, refl))
      | inr held ↦
          rw held (inr (refl, (_, refl, redact_fields-HasPlain py P redacts (with_ledger s))))
    ]
