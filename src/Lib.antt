-- ===== src/Lib.antt =====
-- Syndicate: an orchestration layer for coding agents (syndicate/, server/ and scripts/).
--
-- The program runs a graph of nodes over one state. The analyzer and the architect turn an issue
-- into a ticket, the executor lets a language model work on it in a sandbox, the validator runs the
-- ticket's verification command, the oversight of git commits the result, and a ticket that fails
-- too often is escalated. The attempts of a ticket are distilled into a ledger.
--
-- Which file models which part:
--   State, State/Update     syndicate/state.py: statuses, ledger entries, the ticket and AgentState.
--                           A key that a dictionary lacks is `none`; what a node returns is a state
--                           with the keys that it gives.
--   Exec                    code that acts on the world and may raise; the world comes back beside an
--                           exception too. Children: Yields (what a value that is returned
--                           satisfies), Total (what a computation that returns satisfies), Within
--                           (costs), Invert (what a success has done), Same (when two computations
--                           are one), Beside (a computation beside a part of the world that it does
--                           not touch), Simulates (two forms of such a part).
--   Runtime/Base            syndicate/runtime/base.py: the sandbox interface.
--   Runtime/Replace         syndicate/runtime/base.py: str_replace.
--   Runtime/Mock            syndicate/runtime/mock.py: MockRuntimeClient.
--   Runtime/OpenHands       syndicate/runtime/openhands.py: OpenHandsRuntimeClient.
--   Runtime/Factory         syndicate/runtime/factory.py: _runtime_base_url, get_runtime_client.
--                           Its child Chosen is about the choice.
--   Runtime/Agrees          the two adapters compared.
--   Llm                     the request and reply shapes of the model (syndicate/stub_llm.py).
--   StubLlm                 syndicate/stub_llm.py: the scripted stand-in and its call history. Its
--                           child Shared puts its scripts beside the world of the sandbox.
--   Host                    what syndicate/nodes.py takes from outside: the environment, the clients,
--                           the escalation budget, `repr` and `json.loads`.
--   Nodes/*                 syndicate/nodes.py: Config (constants), Ask (_issue_key,
--                           _parse_llm_json, _call_llm_json), Analyzer, Architect (Planned is
--                           about its tickets), Tools (_run_tool), Loop (_get_llm_client,
--                           _run_agentic_loop), Executor, Diagnosis (_truncate_diagnosis; Size is
--                           about its bytes), Validator (Executed is about the command that it runs),
--                           Shell (shlex.quote; Words reads a command the way a POSIX shell does,
--                           RoundTrip and Joined compare the two), Oversight (oversight_git_node;
--                           Done and Commands are about its commits and its commands), Ledger
--                           (escalate_node, advance_node). Writes, Logs, Calls and Transcript are
--                           about the keys that nodes write, the lines that they log, the calls of
--                           the model that they make, and the conversations that they send it.
--                           Beside and Script are about the executor over the scripted stand-in:
--                           what it means to play a script without a model, and the loop and its
--                           attempts compared with that.
--   Graph                   the routers and build_graph of syndicate/nodes.py. Its children lift what
--                           is known of the nodes to the graph.
--   Engine                  langgraph as an interface, with its documented laws.
--   Run                     theorems about whole runs: Terminates, Outcome, Calls, Honest, Landed,
--                           Validated.
--   Server/Value            the values of payloads, and `dict(delta)` of an update.
--   Server/Events           server/events.py: redaction, the cap on payloads, envelopes.
--   Server/Registry         server/registry.py: RunRecord with its bounded backlog, RunRegistry.
--   Server/Attempts         server/runner.py: _extract_attempts.
--   Server/Runner           server/runner.py: build_initial_state, _extract_escalation, drive_run.
--   Server/App              server/app.py: create_run, _run_and_release, the cursor of stream_run.
--   Server/Listing          server/app.py: list_runs. Its children: Order (of texts), Sorted, Latest,
--                           Keyed, Names.
--   Server/Service          server/app.py: get_run_state, the lookup of stream_run, health,
--                           _current_rss_kb; server/events.py: format_sse.
--   Server/Steps            the steps in which drive_run changes a record, between which other tasks
--                           may look at it.
--   Server/Redaction, Frames    what of a run and of its state is sent.
--   Server/Strikes, Rounds  the lines that the executor logs, as _extract_attempts reads them.
--   Server/Backlog, Progress, Driven, Status, OneActive, Release, Cursor, Sent, Count, Whole,
--   Follow, Watched, Reconnect  further theorems about the server.
--   Scripts/RunRealIssue    scripts/run_real_issue.py; Scripts/Report is about what it reports.
--   Scripts/Checks          the assertions of the scripts below.
--   Scripts/SmokeMock       scripts/smoke_e2e_mock.py; MockPath is about the way that its run takes.
--   Scripts/SmokeReal       scripts/smoke_e2e_real.py; SmokePassed is about what it has checked.
--   Scripts/Escalation      scripts/verify_step7_escalation.py, verify_step7_escalation_budget.py.
--   Scripts/FileOps         scripts/verify_runtime_fileops.py, verify_runtime_echo.py. Its children:
--                           Agreement (its checks over a server and over a dictionary), Passed.
--   Scripts/ValidationGit   scripts/verify_step6_validation_git.py; Passed is about what it has seen.
--   Scripts/ExecutorLoop    scripts/verify_executor_loop_stub.py. Its children: Scenarios (the four
--                           scenarios and main), Dialogue (for Context), Context.
--   Tests                   the theorems at concrete inputs.
--
-- Assumptions. langgraph runs one node at a time, writes the keys that the node returned, follows the
-- edge, and stops at END, at an exception, or when its limit on supersteps is used up (its default
-- is 25). Exceptions of the sandbox and of the model are values. Tickets and tool inputs have the
-- types that their readers give their keys; an object that the model replied with is seen through
-- the keys that the program reads. A timeout is in milliseconds, a time in microseconds. Texts are
-- sequences of Unicode characters. Awaits of one run happen in order. A command is read by a POSIX
-- shell, in the way that Nodes/Shell/Words states.
--
-- Bounds. The loop of attempts recurs on the strikes that are left, max_strikes minus the strikes
-- counted, and the agentic loop on the turns that are left, so neither needs fuel. A run takes the
-- limit on supersteps as its fuel, and 15 are enough.
--
-- Not modelled: the construction and closing of HTTP clients, the application object of server/app.py
-- with its lifespan and its static files, the checkpointer (a third-party saver), the command line of
-- scripts/run_real_issue.py (argparse), the scripts verify_checkpoint_roundtrip and verify_ui_*, which
-- check a database or a server over HTTP, the shell scripts, tests and the web client. Regular
-- expressions, json.dumps, str and int of Python, repr and the clock are parameters of the definitions
-- that use them.
mod Prelude
pub mod Exec
pub mod State
pub mod Runtime
pub mod Llm
pub mod StubLlm
pub mod Host
pub mod Nodes
pub mod Graph
pub mod Engine
pub mod Run
pub mod Server
pub mod Scripts
mod Tests
