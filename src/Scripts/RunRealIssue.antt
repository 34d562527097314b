-- ===== src/Scripts/RunRealIssue.antt =====
-- scripts/run_real_issue.py. What argparse returns is an argument, and so is Python's rendering.
use syndicate.Prelude.{
  ℕ, String, ◌<>◌, not, Option, none, some, List, [], ◌∷◌, ◌++◌, map, str_eq, str, or_nil,
  truthy_text, if◌then◌else◌,
}
use syndicate.Exec.{Exec, Result, ok, raised, external, pure, when◌perform◌otherwise◌, ◌>>=◌}
use syndicate.State.{
  AgentState, TicketStatus, DecisionSummary, GithubIssue, Ticket, JsonObject, is_done,
}
use syndicate.State.Update.{no_update}
use syndicate.Host.{Host}
use syndicate.Graph.{to, build_graph}
use syndicate.Engine.{Engine, Ending}

-- The arguments. argparse gives exactly one of `body` and `body_file`.
pub record Namespace : Type 0 where
  pub repo : String
  pub number : ℕ
  pub title : String
  pub body : Option String
  pub body_file : Option String
  pub workspace_dir : String

abbrev pub Environ : Type 0
Environ = String → Option String

-- What an f-string makes of the analysis, of the ticket and of the status.
pub record Rendering : Type 0 where
  pub analysis : Option JsonObject → String
  pub ticket : Option Ticket → String
  pub status : Option TicketStatus → String

-- What the process prints, and the code that it exits with.
pub record Exit : Type 0 where
  pub code : ℕ
  pub printed : List String

abbrev pub blocked : String → Exit
blocked reason = record { code = 2; printed = ("run_real_issue blocked: " <> reason) ∷ [] }

abbrev pub no_url : String
no_url =
    "SYNDICATE_RUNTIME_URL not set -- this script needs a live OpenHands runtime, not mock mode. See docs/RUNNING_FOR_REAL.md."

-- `os.environ.pop(key, None)`
abbrev pub without_key : String → Environ → Environ
without_key key environ = λ k. if str_eq k key then none else environ k

abbrev pub issue_of : Namespace → String → GithubIssue
issue_of args body = record {
  repo = some args.repo;
  number = some args.number;
  title = some args.title;
  body = some body;
  workspace_dir = some args.workspace_dir;
}

-- The lines about the issue, the analysis, the ticket and its status.
abbrev pub heading : Rendering → Namespace → AgentState → List String
heading render args s =
    ("issue: " <> args.repo <> "#" <> str args.number)
    ∷ ("issue_analysis: " <> render.analysis s.issue_analysis)
    ∷ ("active_ticket: " <> render.ticket s.active_ticket)
    ∷ ("ticket_status: " <> render.status s.ticket_status)
    ∷ []

abbrev pub attempt_line : String → String
attempt_line line = "  attempt_log: " <> line

abbrev pub decision_line : DecisionSummary → String
decision_line d = "  decision: " <> d.summary

unfoldable pub report : Rendering → Namespace → AgentState → Exit
report render args s = record {
  code = if is_done s.ticket_status then 0 else 1;
  printed =
      heading render args s
      ++ (map attempt_line (or_nil s.attempt_log) ++ map decision_line (or_nil s.decision_ledger));
}

-- What `ainvoke` returns or raises.
abbrev pub invoked : AgentState → Ending → Result AgentState
invoked s Ending.completed = ok s
invoked s (Ending.failed x) = raised x
invoked s Ending.out_of_steps = raised (external "GraphRecursionError")

abbrev pub initial_state : Namespace → String → AgentState
initial_state args body = record no_update { issue = some (issue_of args body) }

module _ {W : Type 0} where
  -- `args.body if args.body is not None else Path(args.body_file).read_text()`
  unfoldable pub body_of : (String → Exec W String) → Namespace → Exec W String
  body_of read_text args w = elim args.body [
    | some body ↦ (ok body, w)
    | none ↦ elim args.body_file [
      | some path ↦ read_text path w
      | none ↦ (raised (external "TypeError"), w)
    ]
  ]

  module _ (engine : Engine W) where
    -- `graph.ainvoke`, with the default limit.
    unfoldable pub ainvoke : Host W → AgentState → Exec W AgentState
    ainvoke host s w =
        let run = engine.stream (build_graph host) 25 (to (build_graph host).entry_point) s w in
        (invoked run.state run.ending, run.world)

    module _ (hosts : Environ → Host W) (read_text : String → Exec W String)
        (render : Rendering) where
      unfoldable pub run_issue : Environ → Namespace → Exec W Exit
      run_issue environ args = do
        body ← body_of read_text args
        final_state ←
            ainvoke (hosts (without_key "SYNDICATE_MOCK_CLIENT" environ)) (initial_state args body)
        pure (report render args final_state)

      -- `hosts` is what the modules of the program see of an environment when they are imported.
      unfoldable pub main : Environ → Namespace → Exec W Exit
      main environ args =
          when not (truthy_text (environ "ANTHROPIC_API_KEY"))
          perform pure (blocked "ANTHROPIC_API_KEY not set")
          otherwise when not (truthy_text (environ "SYNDICATE_RUNTIME_URL"))
          perform pure (blocked no_url)
          otherwise run_issue environ args
