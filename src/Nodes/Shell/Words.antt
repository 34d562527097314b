-- ===== src/Nodes/Shell/Words.antt =====
-- How a POSIX shell splits a simple command into words. This describes the shell, independently of
-- `shlex.quote`: a command in which an unquoted character has a special meaning has no words here.
use Prim.Native.Char.{Char, code}
use syndicate.Prelude.{
  ℕ, String, ◌≡◌, refl, Bool, ◌||◌, ◌&&◌, Option, none, some, List, [], ◌∷◌, leb, ◌==◌,
  if◌then◌else◌,
}

-- What a character means outside of quotes. A special one is an operator, an expansion, a pattern,
-- an escape or the start of a comment.
pub data Kind : Type 0 where
  blank quote double_quote special ordinary : Kind

-- `! # $ & ( ) * ; < > ? [ \ ] ` { | } ~` and the line feed
pub is_special : ℕ → Bool
is_special c =
    c == 10
    || c == 33
    || c == 35
    || c == 36
    || c == 38
    || leb 40 c && leb c 42
    || c == 59
    || c == 60
    || leb 62 c && leb c 63
    || leb 91 c && leb c 93
    || c == 96
    || leb 123 c && leb c 126

unfoldable pub kind : ℕ → Kind
unfolding is_special
kind c =
    if c == 32 || c == 9
    then blank
    else if c == 39
    then quote
    else if c == 34
    then double_quote
    else if is_special c
    then special
    else ordinary

-- Between two words, in a word outside of quotes, and in quotes.
pub data Mode : Type 0 where
  between bare single double : Mode

abbrev pub bare_after : Kind → Mode
bare_after blank = between
bare_after quote = single
bare_after double_quote = double
bare_after special = bare
bare_after ordinary = bare

unfoldable pub mode_after : Mode → ℕ → Mode
unfolding kind
mode_after between c = bare_after (kind c)
mode_after bare c = bare_after (kind c)
mode_after single c = if c == 39 then bare else single
mode_after double c = if c == 34 then bare else double

-- One more character in front of the first word.
abbrev pub prepend : Char → Option (List String) → Option (List String)
prepend c none = none
prepend c (some []) = some []
prepend c (some (w ∷ ws)) = some (String.◌∷◌ c w ∷ ws)

-- An empty word in front of the words.
abbrev pub begin : Option (List String) → Option (List String)
begin none = none
begin (some ws) = some ("" ∷ ws)

-- The words from a character outside of quotes, given those that follow.
abbrev pub bare_words :
    Kind → Char → Option (List String) → Option (List String) → Option (List String)
bare_words blank c ended rest = ended
bare_words quote c ended rest = rest
bare_words double_quote c ended rest = rest
bare_words special c ended rest = none
bare_words ordinary c ended rest = prepend c rest

unfoldable pub words_before : Mode → Char → Option (List String) → Option (List String)
unfolding kind
words_before between c rest = bare_words (kind (code c)) c rest rest
words_before bare c rest = bare_words (kind (code c)) c (begin rest) rest
words_before single c rest = if code c == 39 then rest else prepend c rest
words_before double c rest =
    if code c == 34
    then rest
    else if code c == 36 || code c == 92 || code c == 96
    then none
    else prepend c rest

abbrev pub at_end : Mode → Option (List String)
at_end between = some []
at_end bare = some ("" ∷ [])
at_end single = none
at_end double = none

-- The words of a text from a mode on: inside of a word the first one is the word's rest.
unfoldable pub words_from : Mode → String → Option (List String)
unfolding mode_after words_before
words_from mode String.[] = at_end mode
words_from mode (String.◌∷◌ c s) = words_before mode c (words_from (mode_after mode (code c)) s)

unfoldable pub words : String → Option (List String)
unfolding words_from
words = words_from between

words_example :
    words "git add -- 'a b' c\"d\"e ''" ≡ some ("git" ∷ "add" ∷ "--" ∷ "a b" ∷ "cde" ∷ "" ∷ [])
unfolding words
words_example = refl

words_special : words "echo hi; rm x" ≡ none
unfolding words
words_special = refl
