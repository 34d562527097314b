-- ===== src/Tests/World.antt =====
-- A world that counts the commits of a repository and the calls of the model, and a host over it.
use package.text.Mathlib.Text.{starts_with}
use syndicate.Prelude.{
  ℕ, suc, ◌≡◌, refl, pos, String, ◌<>◌, str, false, Option, none, some, [], ◌∷◌, str_eq, ◌==◌,
  arith, if◌then◌else◌,
}
use syndicate.Exec.{Result, ok, pure}
use syndicate.Exec.Yields.{Yields, Yields-pure}
use syndicate.Exec.Within.{IsFree-pure}
use syndicate.State.{AgentState, Ticket, empty_ticket}
use syndicate.State.Update.{no_update}
use syndicate.Runtime.Base.{ActionResult, RuntimeClient}
use syndicate.Llm.{LlmClient, text}
use syndicate.Host.{Host, malformed}
use syndicate.Nodes.Calls.{IsFreeClient, IsMetered, Counts}
use syndicate.Nodes.Oversight.Done.{ReportsHead, answer}

pub record World : Type 0 where
  pub commits : ℕ
  pub calls : ℕ

abbrev pub empty_world : World
empty_world = record { commits = 0; calls = 0 }

-- What `git rev-parse HEAD` replies.
abbrev pub head_reply : World → ActionResult
head_reply w =
    if w.commits == 0
    then record { exit_code = pos 128; output = "fatal: ambiguous argument 'HEAD'" }
    else record { exit_code = pos 0; output = str w.commits <> "\n" }

abbrev pub head_of : String → World → Option String
head_of cwd w = answer (head_reply w)

abbrev pub reply : String → World → Result ActionResult × World
reply action w =
    if str_eq action "git rev-parse HEAD"
    then (ok (head_reply w), w)
    else if starts_with action "git commit"
    then (ok (record { exit_code = pos 0; output = "" }), record w { commits = suc w.commits })
    else (ok (record { exit_code = pos 0; output = "" }), w)

abbrev pub git_client : RuntimeClient World
git_client = record {
  is_mock = false;
  run_action = λ action cwd timeout. reply action;
  read_file = λ path. pure "";
  write_file = λ path content. pure tt;
  edit_file = λ path old new. pure tt;
}

abbrev pub answering : LlmClient World
answering = record {
  create = λ request w. (
    ok (record { content = text "done" ∷ []; stop_reason = "end_turn" }),
    record w { calls = suc w.calls },
  );
}

abbrev pub demo : Host World
demo = record {
  environ = λ key. none;
  get_runtime_client = pure git_client;
  get_stub_client = λ id. pure answering;
  anthropic = pure answering;
  max_escalations = pos 3;
  repr = λ s. "'" <> s <> "'";
  repr_ticket = λ t. "{}";
  loads = λ reply. malformed;
}

abbrev pub demo_ticket : Ticket
demo_ticket = record empty_ticket { id = some "T-1"; files_changed = some ("a.py" ∷ []) }

abbrev pub start : AgentState
start = record no_update { active_ticket = some demo_ticket }

reply-calls : (action : String) (w : World) → (reply action w).1.calls ≡ w.calls
reply-calls action w = ground arith

answering-IsMetered : IsMetered (λ w. w.calls) answering
answering-IsMetered = record { create = λ request. record { at = λ w. omega arith } }

git_client-IsFree : IsFreeClient (λ w. w.calls) git_client
git_client-IsFree = record {
  run_action = λ action cwd timeout. record { at = λ w. omega (arith, reply-calls action w) };
  read_file = λ path. IsFree-pure _;
  write_file = λ path content. IsFree-pure _;
  edit_file = λ path old new. IsFree-pure _;
}

pub demo-Counts : Counts (λ w. w.calls) demo
demo-Counts = record {
  runtime = IsFree-pure _;
  runtime_client = Yields-pure _ git_client-IsFree;
  stub = λ id. IsFree-pure _;
  stub_client = λ id. Yields-pure _ answering-IsMetered;
  anthropic = IsFree-pure _;
  anthropic_client = Yields-pure _ answering-IsMetered;
}

pub demo-ReportsHead : (cwd : String) → Yields (ReportsHead head_of cwd) demo.get_runtime_client
demo-ReportsHead cwd = Yields-pure _ (record { reports = λ w. refl; keeps = λ w. refl })
