-- ===== src/Nodes/Loop.antt =====
-- `_get_llm_client` and `_run_agentic_loop` of syndicate/nodes.py
use syndicate.Prelude.{
  ℕ, zero, suc, String, ◌<>◌, Bool, false, Option, none, some, List, [], ◌∷◌, ◌++◌, str_eq, or_text,
}
use syndicate.Exec.{Exec, pure, when◌perform◌otherwise◌, ◌>>=◌}
use syndicate.Runtime.Base.{RuntimeClient}
use syndicate.Llm.{
  Block, text, tool_use, other, ToolResult, Message, user, assistant, tool_results, LlmClient,
  reply_text,
}
use syndicate.Host.{Host}
use syndicate.Nodes.Config.{executor_model, executor_tools, max_tool_calls}
use syndicate.Nodes.Tools.{run_tool}

abbrev is_one : Option String → Bool
is_one none = false
is_one (some value) = str_eq value "1"

-- `user_content`: the prompt, and what the attempt before failed on.
pub user_content : String → Option String → String
user_content task_prompt none = task_prompt
user_content task_prompt (some feedback) =
    task_prompt <> "\n\nThe previous attempt failed its checks:\n" <> feedback

module _ {W : Type 0} (host : Host W) where
  unfoldable pub get_llm_client : Option String → Exec W (LlmClient W)
  get_llm_client ticket_id =
      when is_one (host.environ "SYNDICATE_STUB_LLM")
      perform host.get_stub_client (or_text ticket_id "")
      otherwise host.anthropic

  module _ (client : RuntimeClient W) (cwd : String) where
    -- The `for block in response.content` loop.
    unfoldable pub run_tools : List Block → Exec W (List ToolResult)
    run_tools [] = pure []
    run_tools (text t ∷ blocks) = run_tools blocks
    run_tools (other ∷ blocks) = run_tools blocks
    run_tools (tool_use id name input ∷ blocks) = do
      (content, is_error) ← run_tool host client cwd name input
      rest ← run_tools blocks
      pure (record { tool_use_id = id; content = content; is_error = is_error } ∷ rest)

    -- The `for _ in range(_MAX_TOOL_CALLS)` loop, on the turns that are left.
    unfoldable pub turns : LlmClient W → ℕ → List Message → Exec W String
    unfolding reply_text
    turns llm zero messages = pure "tool call cap reached without a final answer"
    turns llm (suc left) messages = do
      response ← llm.create (record {
        model = executor_model;
        max_tokens = 8096;
        tools = executor_tools;
        messages = messages;
      })
      let messages' = messages ++ (assistant response.content ∷ [])
      when str_eq response.stop_reason "tool_use"
          perform (do
            results ← run_tools response.content
            turns llm left (messages' ++ (tool_results results ∷ [])))
          otherwise pure (reply_text response.content)

    unfoldable pub run_agentic_loop : String → Option String → Option String → Exec W String
    unfolding user_content
    run_agentic_loop task_prompt feedback ticket_id = do
      llm ← get_llm_client ticket_id
      turns llm max_tool_calls (user (user_content task_prompt feedback) ∷ [])
