-- ===== src/Nodes/Shell.antt =====
-- `shlex.quote`, as `oversight_git_node` uses it on names, paths and commit messages.
pub mod Words
pub mod RoundTrip
pub mod Joined
use Prim.Native.Char.{code}
use syndicate.Prelude.{
  ℕ, String, ◌<>◌, ◌≡◌, refl, Bool, true, not, ◌&&◌, ◌||◌, some, truthy_text, leb, ◌==◌,
  if◌then◌else◌,
}

-- ASCII letters, digits and `_ @ % + = : , . / -`
unfoldable pub is_safe : ℕ → Bool
is_safe c =
    leb 97 c && leb c 122
    || leb 65 c && leb c 90
    || leb 48 c && leb c 57
    || c == 95
    || c == 64
    || c == 37
    || c == 43
    || c == 61
    || c == 58
    || leb 44 c && leb c 47

unfoldable pub all_safe : String → Bool
all_safe String.[] = true
all_safe (String.◌∷◌ c s) = is_safe (code c) && all_safe s

-- `s.replace("'", "'\"'\"'")`
unfoldable pub escape : String → String
escape String.[] = ""
escape (String.◌∷◌ c s) =
    let rest = escape s in if code c == 39 then "'\"'\"'" <> rest else String.◌∷◌ c rest

unfoldable pub quote : String → String
unfolding all_safe is_safe escape
quote s =
    if not (truthy_text (some s)) then "''" else if all_safe s then s else "'" <> escape s <> "'"

quote_example : quote "it's" ≡ "'it'\"'\"'s'"
unfolding quote
quote_example = refl

quote_safe_example : quote "syndicate-bot@example.invalid" ≡ "syndicate-bot@example.invalid"
unfolding quote
quote_safe_example = refl
