-- ===== src/Nodes/Calls.antt =====
-- How often the nodes call the language model.
use syndicate.Prelude.{
  ℕ, zero, suc, ◌+◌, ◌-◌, ◌*◌, ◌≤◌, String, ◌≡◌, refl, Option, none, some, List, [], ◌∷◌, arith,
  given, or_zero, Bool,
}
use syndicate.Exec.{
  Exec, Result, ok, raised, file_not_found, value_error, runtime_error, key_error, external,
}
use syndicate.Exec.Yields.{Yields, Yields-when}
use syndicate.Exec.Within.{
  Within, Within-pure, Within-when, Within-bind, Within-bind_free, Within-free, Within-bind-Yields,
  Within-weaken, IsFree, IsFree-bind, Within-more, Within-budget, IsFree-pure, IsFree-raise,
  IsFree-trying, IsFree-when, free_rules,
}
use syndicate.State.{AgentState, Ticket}
use syndicate.Runtime.Base.{ActionResult, RuntimeClient}
use syndicate.Llm.{Block, text, tool_use, other, ToolInput, Message, Request, Response, LlmClient}
use syndicate.Host.{Host}
use syndicate.Nodes.Config.{max_tool_calls, max_strikes}
use syndicate.Nodes.Tools.{required, handle, catching, run_bash, run_editor, run_tool}
use syndicate.Nodes.Loop.{get_llm_client, run_tools, turns, run_agentic_loop}
use syndicate.Nodes.Executor.{run_checks, run_fast_checks, run_dummies, attempts, executor_node}

-- No operation of a sandbox client calls the model.
pub record IsFreeClient {W : Type 0} (tally : W → ℕ) (client : RuntimeClient W) : Type 0 where
  pub run_action :
      (action : String) (cwd : Option String) (timeout : Option ℕ)
      → IsFree tally (client.run_action action cwd timeout)
  pub read_file : (path : String) → IsFree tally (client.read_file path)
  pub write_file : (path content : String) → IsFree tally (client.write_file path content)
  pub edit_file : (path old new : String) → IsFree tally (client.edit_file path old new)

-- A call of `messages.create` is counted as one at most.
pub record IsMetered {W : Type 0} (tally : W → ℕ) (llm : LlmClient W) : Type 0 where
  pub create : (request : Request) → Within tally 1 (λ response. 0) (llm.create request)

-- `tally` counts the calls of the model, and nothing else.
pub record Counts {W : Type 0} (tally : W → ℕ) (host : Host W) : Type 0 where
  pub runtime : IsFree tally host.get_runtime_client
  pub runtime_client : Yields (IsFreeClient tally) host.get_runtime_client
  pub stub : (id : String) → IsFree tally (host.get_stub_client id)
  pub stub_client : (id : String) → Yields (IsMetered tally) (host.get_stub_client id)
  pub anthropic : IsFree tally host.anthropic
  pub anthropic_client : Yields (IsMetered tally) host.anthropic

module _ {W : Type 0} {tally : W → ℕ} {host : Host W} (k : Counts tally host) where
  pub llm_client-IsFree : (id : Option String) → IsFree tally (get_llm_client host id)
  unfolding get_llm_client
  llm_client-IsFree id = IsFree-when _ _ _ (k.stub _) k.anthropic

  pub llm_client-Yields : (id : Option String) → Yields (IsMetered tally) (get_llm_client host id)
  unfolding get_llm_client
  llm_client-Yields id = Yields-when _ _ _ (λ stub. k.stub_client _) (λ real. k.anthropic_client)

module _ {W : Type 0} {tally : W → ℕ} (host : Host W) (client : RuntimeClient W)
    (c : IsFreeClient tally client) where
  required-IsFree : (key : String) (value : Option String) → IsFree tally (required key value)
  required-IsFree key none = search free_rules
  required-IsFree key (some value) = search free_rules

  run_bash-IsFree :
      (cwd : String) (input : ToolInput) → IsFree tally (run_bash host client cwd input)
  unfolding run_bash
  run_bash-IsFree cwd input = search (free_rules, required-IsFree, c.run_action) depth 8

  run_editor-IsFree :
      (cwd : String) (input : ToolInput) → IsFree tally (run_editor host client cwd input)
  unfolding run_editor
  run_editor-IsFree cwd input =
      search (free_rules, required-IsFree, c.read_file, c.write_file, c.edit_file) depth 12

  handle-IsFree : (r : Result (String × Bool)) → IsFree tally (handle {W = W} r)
  handle-IsFree (raised (file_not_found e)) = IsFree-pure _
  handle-IsFree (raised (value_error e)) = IsFree-pure _
  handle-IsFree (raised (runtime_error e)) = IsFree-raise _
  handle-IsFree (raised (key_error e)) = IsFree-raise _
  handle-IsFree (raised (external e)) = IsFree-raise _
  handle-IsFree (ok reply) = IsFree-pure _

  catching-IsFree : (m : Exec W (String × Bool)) → IsFree tally m → IsFree tally (catching m)
  unfolding catching
  catching-IsFree m h = IsFree-trying m handle h handle-IsFree

  run_tool-IsFree :
      (cwd name : String) (input : ToolInput) → IsFree tally (run_tool host client cwd name input)
  unfolding run_tool
  run_tool-IsFree cwd name input =
      catching-IsFree _ (search (free_rules, run_bash-IsFree, run_editor-IsFree))

  run_tools-IsFree :
      (cwd : String) (blocks : List Block) → IsFree tally (run_tools host client cwd blocks)
  unfolding run_tools
  run_tools-IsFree cwd [] = search free_rules
  run_tools-IsFree cwd (text t ∷ blocks) = run_tools-IsFree cwd blocks
  run_tools-IsFree cwd (other ∷ blocks) = run_tools-IsFree cwd blocks
  run_tools-IsFree cwd (tool_use id name input ∷ blocks) =
      IsFree-bind _ _ (run_tool-IsFree cwd name input)
        λ outcome. IsFree-bind _ _ (run_tools-IsFree cwd blocks) λ rest. IsFree-pure _

  turns-Within :
      (cwd : String) (llm : LlmClient W)
      → IsMetered tally llm
      → (left : ℕ) (messages : List Message)
      → Within tally left (λ summary. 0) (turns host client cwd llm left messages)
  unfolding turns
  turns-Within cwd llm m zero messages = Within-pure _ _ (omega arith)
  turns-Within cwd llm m (suc left) messages =
      Within-bind _ (λ response. left) _ _
        (Within-budget (omega arith) (Within-more 1 left (m.create _)))
        λ (response : Response).
          Within-when _ _ _ _
            (λ more.
              Within-bind_free _ _ _ (Within-free _ _ (run_tools-IsFree cwd response.content))
                λ results. turns-Within cwd llm m left _)
            λ last. Within-pure _ _ (omega arith)

  -- One attempt makes 25 calls at most.
  pub loop-Within :
      Counts tally host
      → (cwd prompt : String) (feedback id : Option String)
      → Within tally max_tool_calls
          (λ summary. 0)
          (run_agentic_loop host client cwd prompt feedback id)
  unfolding run_agentic_loop
  loop-Within k cwd prompt feedback id =
      Within-bind-Yields _ _ _ (llm_client-Yields k id) (llm_client-IsFree k id)
        λ llm metered. turns-Within cwd llm metered max_tool_calls _

  checks-IsFree :
      (cwd : String) (actions : List String) → IsFree tally (run_checks client cwd actions)
  unfolding run_checks
  checks-IsFree cwd [] = IsFree-pure _
  checks-IsFree cwd (action ∷ actions) =
      IsFree-bind _ _ (c.run_action _ _ _)
        λ (result : ActionResult). IsFree-when _ _ _ (checks-IsFree cwd actions) (IsFree-pure _)

  pub fast_checks-IsFree : (cwd : String) → IsFree tally (run_fast_checks client cwd)
  unfolding run_fast_checks
  fast_checks-IsFree cwd = checks-IsFree cwd _

-- The calls that the strikes left over allow.
abbrev pub allowance : ℕ → ℕ
allowance strikes = max_tool_calls * (max_strikes - strikes)

allowance-given : (a b : Option ℕ) → allowance (or_zero (given a b)) ≤ allowance (or_zero a)
allowance-given none b = omega arith
allowance-given (some n) b = omega arith

module _ {W : Type 0} {tally : W → ℕ} {host : Host W} (k : Counts tally host) where
  module _ (client : RuntimeClient W) (c : IsFreeClient tally client) where
    attempts-Within :
        (ticket : Ticket) (left before : ℕ) (log : List String) (feedback : Option String)
        → left ≡ max_strikes - before
        → Within tally
            (allowance before)
            (λ u. allowance (or_zero u.strike_count))
            (attempts host client ticket left before log feedback)
    unfolding attempts
    attempts-Within ticket zero before log feedback h = Within-pure _ _ (omega arith)
    attempts-Within ticket (suc left) before log feedback h =
        Within-bind _ (λ summary. allowance (before + 1)) _ _
          (Within-budget (omega arith) (
            Within-more max_tool_calls (allowance (before + 1))
              (loop-Within host client c k _ _ feedback _)))
          λ summary.
            Within-bind_free _ _ _ (Within-free _ _ (fast_checks-IsFree host client c _))
              λ (check : ActionResult).
                Within-when _ _ _ _ (λ passed. Within-pure _ _ (omega arith))
                  λ failed. attempts-Within ticket left (before + 1) _ _ (omega arith)

    dummies-Within :
        (strikes : Option ℕ) (actions log : List String)
        → Within tally
            (allowance (or_zero strikes))
            (λ u. allowance (or_zero (given u.strike_count strikes)))
            (run_dummies host client log actions)
    unfolding run_dummies
    dummies-Within strikes [] log = Within-pure _ _ (omega arith)
    dummies-Within strikes (action ∷ actions) log =
        Within-bind_free _ _ _ (Within-free _ _ (c.run_action _ _ _))
          λ result. dummies-Within strikes actions _

  pub executor-Within :
      (s : AgentState)
      → Within tally
          (allowance (or_zero s.strike_count))
          (λ u. allowance (or_zero (given u.strike_count s.strike_count)))
          (executor_node host s)
  unfolding executor_node
  executor-Within s = Within-bind-Yields _ _ _ k.runtime_client k.runtime λ client c.
      Within-when _ _ _ _ (λ mock. dummies-Within client c s.strike_count _ _)
        λ real.
          Within-weaken _ _ (λ u. allowance-given u.strike_count s.strike_count)
            (attempts-Within client c _ _ _ _ _ refl)
