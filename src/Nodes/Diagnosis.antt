-- ===== src/Nodes/Diagnosis.antt =====
-- `_truncate_diagnosis` of syndicate/nodes.py, on texts as Unicode characters.
pub mod Size
use Prim.Native.Char.{Char, code, char, len_utf8}
use syndicate.Prelude.{
  ℕ, zero, suc, ◌+◌, ◌-◌, String, Bool, false, ◌&&◌, ◌||◌, List, [], ◌∷◌, ltb, leb, ◌==◌, ◌≡◌, refl,
  length, join, if◌then◌else◌,
}
use syndicate.Nodes.Config.{diagnosis_max_lines, diagnosis_max_bytes}

-- The characters that `str.splitlines` splits at.
pub is_line_break : ℕ → Bool
is_line_break c = leb 10 c && leb c 13 || leb 28 c && leb c 30 || c == 133 || c == 8232 || c == 8233

-- One more character in front of the first line.
pub add_char : Char → List String → List String
add_char c [] = String.◌∷◌ c "" ∷ []
add_char c (line ∷ lines) = String.◌∷◌ c line ∷ lines

-- The lines of a text; `after_cr` says that the character before it was a carriage return, whose
-- line feed is a part of the same line break.
pub lines_from : Bool → String → List String
unfolding is_line_break add_char
lines_from after_cr String.[] = []
lines_from after_cr (String.◌∷◌ c s) =
    let rest = lines_from (code c == 13) s in
    if after_cr && code c == 10
    then rest
    else if is_line_break (code c)
    then "" ∷ rest
    else add_char c rest

-- `output.splitlines()`
pub splitlines : String → List String
unfolding lines_from
splitlines = lines_from false

-- `xs[-n:]` for a positive n
pub last_of {ℓ} : {A : Type ℓ} → ℕ → List A → List A
last_of n [] = []
last_of n (x ∷ xs) = let rest = last_of n xs in if ltb n (suc (length xs)) then rest else x ∷ xs

-- `len(text.encode())`
unfoldable pub byte_length : String → ℕ
byte_length String.[] = 0
byte_length (String.◌∷◌ c s) = len_utf8 c + byte_length s

-- U+FFFD, as often as there are bytes of a cut character: each decodes to one.
unfoldable pub replacements : ℕ → String → String
replacements zero s = s
replacements (suc n) s = String.◌∷◌ (char 65533 tt) (replacements n s)

-- `text.encode()[k:].decode(errors='replace')`: the text without its first k bytes.
unfoldable pub drop_bytes : ℕ → String → String
unfolding replacements
drop_bytes zero s = s
drop_bytes (suc k) String.[] = ""
drop_bytes (suc k) (String.◌∷◌ c s) =
    let shorter = drop_bytes (suc k - len_utf8 c) s in
    if leb (len_utf8 c) (suc k) then shorter else replacements (len_utf8 c - suc k) s

unfoldable pub truncate_diagnosis : String → String
unfolding splitlines last_of byte_length drop_bytes
truncate_diagnosis output =
    let truncated = join "\n" (last_of diagnosis_max_lines (splitlines output)) in
    let size = byte_length truncated in
    if ltb diagnosis_max_bytes size
    then drop_bytes (size - diagnosis_max_bytes) truncated
    else truncated

truncate_short : truncate_diagnosis "a\r\nb\n" ≡ "a\nb"
unfolding truncate_diagnosis join
truncate_short = refl
