-- ===== src/Nodes/Diagnosis/Size.antt =====
-- The size of what `_truncate_diagnosis` of syndicate/nodes.py keeps.
use Prim.Native.Nat.{compare, Ordering}
use Prim.Native.Char.{Char, code, len_utf8, len_utf8_def, width}
use mathlib.Core.Logic.{inl, inr}
use syndicate.Prelude.{ℕ, zero, suc, ◌+◌, ◌-◌, ◌≤◌, ◌≡◌, String, Bool-cases, ltb, leb, join, arith}
use syndicate.Nodes.Config.{diagnosis_max_lines, diagnosis_max_bytes}
use syndicate.Nodes.Diagnosis.{
  replacements, drop_bytes, byte_length, splitlines, last_of, truncate_diagnosis,
}

width-bound : (o p q : Ordering) → width o p q ≤ 4
width-bound Ordering.lt p q = omega arith
width-bound Ordering.eq Ordering.lt q = omega arith
width-bound Ordering.gt Ordering.lt q = omega arith
width-bound Ordering.eq Ordering.eq Ordering.lt = omega arith
width-bound Ordering.eq Ordering.eq Ordering.eq = omega arith
width-bound Ordering.eq Ordering.eq Ordering.gt = omega arith
width-bound Ordering.eq Ordering.gt Ordering.lt = omega arith
width-bound Ordering.eq Ordering.gt Ordering.eq = omega arith
width-bound Ordering.eq Ordering.gt Ordering.gt = omega arith
width-bound Ordering.gt Ordering.eq Ordering.lt = omega arith
width-bound Ordering.gt Ordering.eq Ordering.eq = omega arith
width-bound Ordering.gt Ordering.eq Ordering.gt = omega arith
width-bound Ordering.gt Ordering.gt Ordering.lt = omega arith
width-bound Ordering.gt Ordering.gt Ordering.eq = omega arith
width-bound Ordering.gt Ordering.gt Ordering.gt = omega arith

len_utf8-bound : (c : Char) → len_utf8 c ≤ 4
len_utf8-bound c =
    let b = width-bound (compare (code c) 128) (compare (code c) 2048) (compare (code c) 65536) in
    rw (len_utf8_def c) b

byte_length-replacements :
    (n : ℕ) (s : String) → byte_length (replacements n s) ≡ n + n + n + byte_length s
unfolding replacements byte_length
byte_length-replacements zero s = omega arith
byte_length-replacements (suc n) s = omega (arith, byte_length-replacements n s)

-- A cut character leaves three bytes for each of its bytes that are left.
byte_length-drop_bytes :
    (k : ℕ) (s : String) → k ≤ byte_length s → byte_length (drop_bytes k s) + k ≤ byte_length s + 6
unfolding drop_bytes byte_length
byte_length-drop_bytes zero s h = omega arith
byte_length-drop_bytes (suc k) String.[] h = omega arith
byte_length-drop_bytes (suc k) (String.◌∷◌ c s) h = elim (Bool-cases (leb (len_utf8 c) (suc k))) [
  | inl e ↦
      let rest = byte_length-drop_bytes (suc k - len_utf8 c) s (ground arith) in
      rw e (ground (arith, rest))
  | inr e ↦ rw e (ground (arith, len_utf8-bound c, byte_length-replacements (len_utf8 c - suc k) s))
]

-- A diagnosis has 4102 bytes at most: `_DIAGNOSIS_MAX_BYTES`, and six for a character that was cut.
pub byte_length-truncate_diagnosis :
    (output : String) → byte_length (truncate_diagnosis output) ≤ diagnosis_max_bytes + 6
unfolding truncate_diagnosis
byte_length-truncate_diagnosis output =
    let truncated = join "\n" (last_of diagnosis_max_lines (splitlines output)) in
    elim (Bool-cases (ltb diagnosis_max_bytes (byte_length truncated))) [
      | inl e ↦
          let cut =
            byte_length-drop_bytes (byte_length truncated - diagnosis_max_bytes) truncated
              (omega arith) in
          rw e (ground (arith, cut))
      | inr e ↦ rw e (ground arith)
    ]
