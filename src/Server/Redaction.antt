-- ===== src/Server/Redaction.antt =====
-- The payloads of events: plain JSON whose texts are redacted (server/events.py).
use mathlib.Core.Logic.{inl, inr}
use syndicate.Prelude.{
  ℕ, ◌≡◌, ◌⊎◌, refl, subst, sym, String, false, Bool-cases, List, [], ◌∷◌, ◌++◌, leb, length,
}
use syndicate.Host.{Host}
use syndicate.Engine.{Engine, Ending}
use syndicate.Nodes.Diagnosis.{byte_length}
use syndicate.Server.Value.{
  Value, null, boolean, number, text, enum, dataclass, list, dict, Items, nil, cons, Fields, end,
  field,
}
use syndicate.Server.Events.{
  Python, Envelope, max_payload_bytes, redact_text, redact_value, redact_items, redact_fields,
  truncated, cap_payload, make_envelope,
}
use syndicate.Server.Registry.{RunRecord, new_record, push, shifted, emit, next_seq, backlog_maxlen}
use syndicate.Server.Runner.{send, drive_run}
use syndicate.Server.Steps.{Step, sends, keeps, Reach, here, next, drive_run-Reach}

-- `P` says what a text may be. Nothing is said of the keys.
module _ (P : String → Type 0) where
  unfoldable mutual
    -- Plain JSON, without members of enumerations and data classes, whose texts satisfy `P`.
    pub IsPlain : Value → Type 0
    IsPlain null = Unit
    IsPlain (boolean b) = Unit
    IsPlain (number n) = Unit
    IsPlain (text s) = P s
    IsPlain (enum s) = ⊥
    IsPlain (dataclass fs) = ⊥
    IsPlain (list xs) = ArePlain xs
    IsPlain (dict fs) = HasPlain fs

    pub ArePlain : Items → Type 0
    ArePlain nil = Unit
    ArePlain (cons x xs) = IsPlain x × ArePlain xs

    pub HasPlain : Fields → Type 0
    HasPlain end = Unit
    HasPlain (field k v fs) = IsPlain v × HasPlain fs

module _ (py : Python) (P : String → Type 0) (redacts : (s : String) → P (redact_text py s)) where
  mutual
    unfolding redact_value IsPlain

    pub redact_value-IsPlain : (v : Value) → IsPlain P (redact_value py v)
    redact_value-IsPlain null = tt
    redact_value-IsPlain (boolean b) = tt
    redact_value-IsPlain (number n) = tt
    redact_value-IsPlain (text s) = redacts s
    redact_value-IsPlain (enum s) = redacts s
    redact_value-IsPlain (dataclass fs) = redact_fields-HasPlain fs
    redact_value-IsPlain (list xs) = redact_items-ArePlain xs
    redact_value-IsPlain (dict fs) = redact_fields-HasPlain fs

    redact_items-ArePlain : (xs : Items) → ArePlain P (redact_items py xs)
    redact_items-ArePlain nil = tt
    redact_items-ArePlain (cons x xs) = (redact_value-IsPlain x, redact_items-ArePlain xs)

    pub redact_fields-HasPlain : (fs : Fields) → HasPlain P (redact_fields py fs)
    redact_fields-HasPlain end = tt
    redact_fields-HasPlain (field k v fs) = (redact_value-IsPlain v, redact_fields-HasPlain fs)

-- A payload as it was redacted, or the marker that stands in for one of more than 8192 bytes.
module _ (py : Python) (P : String → Type 0) where
  pub record IsCut (fs : Fields) : Type 0 where
    pub original : Fields
    pub plain : HasPlain P original
    pub large : leb (byte_length (py.dumps (dict original))) max_payload_bytes ≡ false
    pub marker : fs ≡ truncated py (py.dumps (dict original))

  abbrev pub IsSafe : Fields → Type 0
  IsSafe fs = HasPlain P fs ⊎ IsCut fs

  abbrev pub AllSafe : List Envelope → Type 0
  AllSafe [] = Unit
  AllSafe (e ∷ es) = IsSafe e.payload × AllSafe es

  cap_payload-IsSafe : (fs : Fields) → HasPlain P fs → IsSafe (cap_payload py fs)
  unfolding cap_payload
  cap_payload-IsSafe fs h =
      elim (Bool-cases (leb (byte_length (py.dumps (dict fs))) max_payload_bytes)) [
        | inl fits ↦ rw fits (inl h)
        | inr large ↦
            rw large (inr (record { original = fs; plain = h; large = large; marker = refl }))
      ]

  AllSafe-shifted : (es : List Envelope) → AllSafe es → AllSafe (shifted es)
  AllSafe-shifted [] h = tt
  AllSafe-shifted (e ∷ es) h = h.1

  AllSafe-snoc :
      (es : List Envelope) (e : Envelope) → AllSafe es → IsSafe e.payload → AllSafe (es ++ (e ∷ []))
  AllSafe-snoc [] e h s = (s, tt)
  AllSafe-snoc (x ∷ es) e (a, h) s = (a, AllSafe-snoc es e h s)

  AllSafe-push :
      (es : List Envelope) (e : Envelope)
      → AllSafe es
      → IsSafe e.payload
      → AllSafe (push backlog_maxlen es e)
  unfolding push
  AllSafe-push es e h s = elim (Bool-cases (leb backlog_maxlen (length es))) [
    | inl full ↦ rw full (AllSafe-snoc (shifted es) e (AllSafe-shifted es h) s)
    | inr free ↦ rw free (AllSafe-snoc es e h s)
  ]

module _ (py : Python) (now : ℕ → String) (P : String → Type 0)
    (redacts : (s : String) → P (redact_text py s)) where
  Step-AllSafe :
      {r q : RunRecord} → Step py now r q → AllSafe py P r.backlog → AllSafe py P q.backlog
  unfolding send emit next_seq make_envelope
  Step-AllSafe (sends kind at payload r) h =
      AllSafe-push py P r.backlog _ h
        (cap_payload-IsSafe py P _ (redact_fields-HasPlain py P redacts payload))
  Step-AllSafe (keeps r q e c) h = subst (AllSafe py P) (sym e) h

  Reach-AllSafe :
      {r q : RunRecord} → Reach py now r q → AllSafe py P r.backlog → AllSafe py P q.backlog
  Reach-AllSafe here h = h
  Reach-AllSafe (next g s) h = Step-AllSafe s (Reach-AllSafe g h)

  -- If `P` holds of every text that was redacted, then every event in the backlog of a new run that
  -- was driven, whatever the engine yields, has a payload of plain JSON, with no member of an
  -- enumeration and no data class, in which `P` holds of every text that is not a key; or its payload
  -- is the marker for such a payload of more than 8192 bytes.
  pub drive_run-AllSafe :
      {W : Type 0} (engine : Engine W) (host : Host W) (message : Ending → String) (created_at : ℕ)
      (run_id raw_request : String) (w : W)
      → AllSafe py P
          (drive_run py now engine host message
            (new_record created_at run_id raw_request)
            w).0.backlog
  unfolding new_record
  drive_run-AllSafe engine host message created_at run_id raw_request w =
      Reach-AllSafe
        (drive_run-Reach py now engine host message (new_record created_at run_id raw_request) w) tt
