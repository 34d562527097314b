-- ===== src/Server/Attempts.antt =====
-- `_extract_attempts` of server/runner.py: the attempts that an update of the executor logs.
use Prim.Native.Char.{code}
use package.text.Mathlib.Text.{starts_with}
use syndicate.Prelude.{
  ◌≡◌, refl, String, Bool, true, Option, none, some, List, [], ◌∷◌, ◌||◌, ◌==◌, length, drop,
  is_space, if◌then◌else◌,
}
use syndicate.State.{AgentState}
use syndicate.Graph.{Node, executor}
use syndicate.Server.Value.{Value, null, number, text, Fields, end, field}
use syndicate.Server.Events.{Python}
use syndicate.Server.Registry.{RunRecord}

-- `part in line`
unfoldable pub contains : String → String → Bool
contains part String.[] = starts_with "" part
contains part (String.◌∷◌ c s) = starts_with (String.◌∷◌ c s) part || contains part s

-- `line.split()[0]`, of a line that does not start with a space.
unfoldable pub first_word : String → String
first_word String.[] = ""
first_word (String.◌∷◌ c s) =
    let rest = first_word s in if is_space (code c) then "" else String.◌∷◌ c rest

-- `word.split('=', 1)[1]`, with `none` for its IndexError.
unfoldable pub after_equals : String → Option String
after_equals String.[] = none
after_equals (String.◌∷◌ c s) = let rest = after_equals s in if code c == 61 then some s else rest

module _ (py : Python) where
  -- `int(...)` under `except (IndexError, ValueError)`
  abbrev pub strike_number : Option String → Value
  strike_number none = null
  strike_number (some digits) = elim (py.int digits) [ none ↦ null | some n ↦ number n ]

  abbrev pub strike_of : String → Value
  strike_of line =
      if starts_with line "strike=" then strike_number (after_equals (first_word line)) else null

  unfoldable pub attempts_of : List String → List Fields
  attempts_of [] = []
  attempts_of (line ∷ lines) =
      let rest = attempts_of lines in
      if contains "fast_check" line
      then field "strike" (strike_of line) (field "fast_check_summary" (text line) end) ∷ rest
      else rest

  abbrev pub logged_attempts : Option (List String) → RunRecord → RunRecord × List Fields
  logged_attempts none r = (r, [])
  logged_attempts (some log) r = (
    record r { last_attempt_log_len = length log },
    attempts_of (drop r.last_attempt_log_len log),
  )

  unfoldable pub extract_attempts : Node → AgentState → RunRecord → RunRecord × List Fields
  extract_attempts executor u r = logged_attempts u.attempt_log r
  extract_attempts _ u r = (r, [])

first_word_example : after_equals (first_word "strike=2 fast_check: ok=1") ≡ some "2"
unfolding first_word after_equals is_space
first_word_example = refl

contains_example : contains "fast_check" "strike=2 fast_check exit=0" ≡ true
unfolding contains
contains_example = refl
