-- ===== src/Server/Events.antt =====
-- server/events.py. Regular expressions, `json.dumps` and the clock are parameters.
use syndicate.Prelude.{
  ℕ, zero, suc, ℤ, ◌-◌, String, Bool, true, false, Option, List, [], ◌∷◌, leb, if◌then◌else◌,
}
use syndicate.Nodes.Diagnosis.{byte_length}
use syndicate.Server.Value.{
  Value, null, boolean, number, natural, text, enum, dataclass, list, dict, Items, nil, cons,
  Fields, end, field,
}

pub data EventKind : Type 0 where
  run_started node_update attempt escalation run_completed run_failed heartbeat : EventKind

-- `sub pattern replacement text` is `re.sub`, `dumps` is `json.dumps(..., default=str)`, and `int` is
-- `int`, with `none` for its ValueError.
pub record Python : Type 0 where
  pub sub : String → String → String → String
  pub dumps : Value → String
  pub int : String → Option ℤ

abbrev pub max_payload_bytes : ℕ
max_payload_bytes = 8192

abbrev pub secret_patterns : List String
secret_patterns =
    "sk-ant-[A-Za-z0-9_-]{10,}"
    ∷ "(?i)(api[_-]?key|token|secret)\\s*[:=]\\s*['\"]?[A-Za-z0-9_\\-\\.]{12,}['\"]?"
    ∷ "(?i)bearer\\s+[A-Za-z0-9_\\-\\.]{12,}" ∷ "AKIA[0-9A-Z]{16}"
    ∷ "-----BEGIN [A-Z ]*PRIVATE KEY-----[\\s\\S]*?-----END [A-Z ]*PRIVATE KEY-----" ∷ []

abbrev pub redacted : String
redacted = "[REDACTED]"

-- `text[:n]`
pub first_chars : ℕ → String → String
first_chars zero s = ""
first_chars (suc n) String.[] = ""
first_chars (suc n) (String.◌∷◌ c s) = String.◌∷◌ c (first_chars n s)

module _ (py : Python) where
  unfoldable pub redact_with : List String → String → String
  redact_with [] s = s
  redact_with (pattern ∷ patterns) s = redact_with patterns (py.sub pattern redacted s)

  unfoldable pub redact_text : String → String
  unfolding redact_with
  redact_text = redact_with secret_patterns

  unfoldable mutual
    -- A member of a `str` enumeration is a text too, so its value is redacted as a text.
    pub redact_value : Value → Value
    redact_value null = null
    redact_value (boolean b) = boolean b
    redact_value (number n) = number n
    redact_value (text s) = text (redact_text s)
    redact_value (enum s) = text (redact_text s)
    redact_value (dataclass fs) = dict (redact_fields fs)
    redact_value (list xs) = list (redact_items xs)
    redact_value (dict fs) = dict (redact_fields fs)

    pub redact_items : Items → Items
    redact_items nil = nil
    redact_items (cons x xs) = cons (redact_value x) (redact_items xs)

    pub redact_fields : Fields → Fields
    redact_fields end = end
    redact_fields (field k v fs) = field k (redact_value v) (redact_fields fs)

  -- What stands in for a payload that is too large.
  abbrev pub truncated : String → Fields
  truncated encoded = field "truncated" (boolean true) (
      field "original_size_bytes" (natural (byte_length encoded))
        (field "preview" (text (first_chars (max_payload_bytes - 200) encoded)) end))

  unfoldable pub cap_payload : Fields → Fields
  cap_payload payload =
      let encoded = py.dumps (dict payload) in
      if leb (byte_length encoded) max_payload_bytes then payload else truncated encoded

pub record Envelope : Type 0 where
  pub seq : Option ℕ
  pub ts : String
  pub run_id : String
  pub kind : EventKind
  pub node : Option String
  pub payload : Fields

-- `ts` is the time at which the envelope is made.
unfoldable pub make_envelope :
    Python → String → Option ℕ → String → EventKind → Option String → Fields → Envelope
unfolding cap_payload
make_envelope py ts seq run_id kind node payload = record {
  seq = seq;
  ts = ts;
  run_id = run_id;
  kind = kind;
  node = node;
  payload = cap_payload py (redact_fields py payload);
}

-- `kind in ('run_completed', 'run_failed')`, which ends a stream of events.
unfoldable pub is_terminal : EventKind → Bool
is_terminal run_completed = true
is_terminal run_failed = true
is_terminal _ = false
