-- ===== src/Tests/Redaction.antt =====
-- Redaction with an expression that finds Anthropic's keys only.
use mathlib.Core.Logic.{inl, inr}
use package.text.Mathlib.Text.{starts_with}
use mathlib.Core.Bool.{false≢true}
use syndicate.Prelude.{
  ℕ, ◌≡◌, refl, String, false, Bool-cases, Option, none, some, List, [], ◌∷◌, sym, is_empty,
  if◌then◌else◌,
}
use syndicate.Engine.{reference, Ending}
use syndicate.Server.Value.{Value}
use syndicate.Server.Events.{Python, redacted, secret_patterns, redact_with, redact_text}
use syndicate.Server.Registry.{new_record}
use syndicate.Server.Runner.{drive_run}
use syndicate.Server.Redaction.{AllSafe, drive_run-AllSafe}
use syndicate.Server.Service.{get_run_state}
use syndicate.Server.Frames.{
  AllFramed, DumpsPlain, IsStateAnswer, format_sse-drive_run, get_run_state-IsStateAnswer,
}
use syndicate.Tests.World.{demo, empty_world, start}

abbrev mask : String → String → String → String
mask pattern replacement s = if starts_with s "sk-ant-" then replacement else s

abbrev masking : Python
masking = record { sub = mask; dumps = λ value. "{}"; int = λ s. none }

abbrev IsNoKey : String → Type 0
IsNoKey s = starts_with s "sk-ant-" ≡ false

mask-IsNoKey : (pattern s : String) → IsNoKey (mask pattern redacted s)
mask-IsNoKey pattern s = elim (Bool-cases (starts_with s "sk-ant-")) [
  | inl e ↦ rw e refl
  | inr e ↦ rw (e, e) refl
]

redact_with-IsNoKey :
    (patterns : List String) (s : String)
    → is_empty patterns ≡ false
    → IsNoKey (redact_with masking patterns s)
unfolding redact_with
redact_with-IsNoKey [] s h = absurd (false≢true (sym h))
redact_with-IsNoKey (pattern ∷ []) s h = mask-IsNoKey pattern s
redact_with-IsNoKey (pattern ∷ next ∷ patterns) s h =
    redact_with-IsNoKey (next ∷ patterns) (mask pattern redacted s) refl

redact_text-IsNoKey : (s : String) → IsNoKey (redact_text masking s)
unfolding redact_text
redact_text-IsNoKey s = redact_with-IsNoKey secret_patterns s refl

abbrev clock : ℕ → String
clock n = "12:00"

abbrev failure : Ending → String
failure ending = "error"

drive_run-AllSafe_example :
    AllSafe masking IsNoKey
      (drive_run masking clock reference demo failure
        (new_record 0 "run" "sk-ant-abcdefghij")
        empty_world).0.backlog
drive_run-AllSafe_example =
    drive_run-AllSafe masking clock IsNoKey redact_text-IsNoKey reference demo failure 0 "run"
      "sk-ant-abcdefghij" empty_world

abbrev dumping : Value → Option String
dumping value = some "{}"

dumping-DumpsPlain : DumpsPlain dumping
dumping-DumpsPlain v h = ("{}", refl)

format_sse-drive_run_example :
    AllFramed dumping
      (drive_run masking clock reference demo failure
        (new_record 0 "run" "Fix the parser")
        empty_world).0.backlog
format_sse-drive_run_example =
    format_sse-drive_run dumping dumping-DumpsPlain masking clock reference demo failure 0 "run"
      "Fix the parser" empty_world

get_run_state-IsStateAnswer_example :
    IsStateAnswer
      (λ s. s)
      IsNoKey
      "run"
      (some start)
      (get_run_state (λ s. s) masking "run" (some start))
get_run_state-IsStateAnswer_example =
    get_run_state-IsStateAnswer (λ s. s) masking IsNoKey redact_text-IsNoKey "run" (some start)
