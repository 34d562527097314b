-- ===== src/Nodes/Transcript.antt =====
-- The conversations that are sent to the language model are well formed.
use mathlib.Core.Bool.{false≢true}
use mathlib.Core.List.{append_assoc}
use package.text.Mathlib.TextPositions.{eq_refl}
use syndicate.Prelude.{
  ℕ, zero, suc, ◌≡◌, ◌∙◌, refl, ap, String, Bool, true, false, ◌&&◌, Option, List, [], ◌∷◌, ◌++◌,
  str_eq,
}
use syndicate.Exec.{Exec, external, pure, raise, when◌perform◌otherwise◌, ◌>>=◌}
use syndicate.Exec.Yields.{Yields, Yields-pure, Yields-bind, Yields-then}
use syndicate.Exec.Same.{bind-same, when-same, bind-same_then, bind-mapped}
use syndicate.Runtime.Base.{RuntimeClient}
use syndicate.Llm.{
  Block, text, tool_use, other, ToolResult, Message, user, assistant, tool_results, Request,
  LlmClient,
}
use syndicate.Host.{Host}
use syndicate.Nodes.Config.{max_tool_calls}
use syndicate.Nodes.Tools.{run_bash, run_editor, run_tool}
use syndicate.Nodes.Loop.{get_llm_client, run_tools, turns, run_agentic_loop}

unfoldable pub tool_ids : List Block → List String
tool_ids [] = []
tool_ids (text t ∷ blocks) = tool_ids blocks
tool_ids (other ∷ blocks) = tool_ids blocks
tool_ids (tool_use id name input ∷ blocks) = id ∷ tool_ids blocks

-- The results answer the calls, in their order.
unfoldable pub are_answered : List String → List ToolResult → Bool
are_answered [] [] = true
are_answered [] (r ∷ rs) = false
are_answered (id ∷ ids) [] = false
are_answered (id ∷ ids) (r ∷ rs) = str_eq r.tool_use_id id && are_answered ids rs

-- Each message of the model is followed by the results of exactly its tool calls.
unfoldable pub is_paired : List Message → Bool
is_paired [] = true
is_paired (assistant blocks ∷ tool_results rs ∷ messages) =
    are_answered (tool_ids blocks) rs && is_paired messages
is_paired (_ ∷ _) = false

-- What a request may hold: a prompt, and then turns of the model with their results.
unfoldable pub is_transcript : List Message → Bool
unfolding is_paired
is_transcript (user prompt ∷ messages) = is_paired messages
is_transcript _ = false

module _ {W : Type 0} where
  -- A client that refuses every other conversation.
  abbrev pub checked : LlmClient W → LlmClient W
  checked llm = record {
    create = λ request.
        when is_transcript request.messages
        perform llm.create request
        otherwise raise (external "invalid_request_error");
  }

  abbrev pub checked_host : Host W → Host W
  checked_host host = record host {
    get_stub_client = λ id. host.get_stub_client id >>= λ llm. pure (checked llm);
    anthropic = host.anthropic >>= λ llm. pure (checked llm);
  }

and_true : (a b : Bool) → a ≡ true → b ≡ true → (a && b) ≡ true
and_true a b p q = rw (p, q) refl

and_parts : (a b : Bool) → (a && b) ≡ true → (a ≡ true) × (b ≡ true)
and_parts true b p = (refl, p)
and_parts false b p = absurd (false≢true p)

str_eq_refl_and : (id : String) (rest : Bool) → (str_eq id id && rest) ≡ rest
str_eq_refl_and id rest = rw (eq_refl id) refl

are_answered-snoc :
    (messages : List Message) (blocks : List Block) (rs : List ToolResult)
    → is_paired messages ≡ true
    → are_answered (tool_ids blocks) rs ≡ true
    → is_paired (messages ++ (assistant blocks ∷ tool_results rs ∷ [])) ≡ true
unfolding is_paired
are_answered-snoc [] blocks rs p a = rw a refl
are_answered-snoc (assistant bs ∷ tool_results qs ∷ messages) blocks rs p a =
    let parts = and_parts _ _ p in
    and_true _ _ parts.0 (are_answered-snoc messages blocks rs parts.1 a)
are_answered-snoc (assistant bs ∷ []) blocks rs p a = absurd (false≢true p)
are_answered-snoc (assistant bs ∷ user t ∷ messages) blocks rs p a = absurd (false≢true p)
are_answered-snoc (assistant bs ∷ assistant cs ∷ messages) blocks rs p a = absurd (false≢true p)
are_answered-snoc (user t ∷ messages) blocks rs p a = absurd (false≢true p)
are_answered-snoc (tool_results qs ∷ messages) blocks rs p a = absurd (false≢true p)

pub create-checked :
    {W : Type 0} (llm : LlmClient W) (request : Request)
    → is_transcript request.messages ≡ true
    → (checked llm).create request ≡ llm.create request
unfolding when◌perform◌otherwise◌
create-checked llm request p = rw p refl

module _ {W : Type 0} (host : Host W) (client : RuntimeClient W) (cwd : String) where
  run_tools-Yields :
      (blocks : List Block)
      → Yields (λ rs. are_answered (tool_ids blocks) rs ≡ true) (run_tools host client cwd blocks)
  unfolding run_tools tool_ids are_answered
  run_tools-Yields [] = Yields-pure _ refl
  run_tools-Yields (text t ∷ blocks) = run_tools-Yields blocks
  run_tools-Yields (other ∷ blocks) = run_tools-Yields blocks
  run_tools-Yields (tool_use id name input ∷ blocks) = Yields-bind _ _ λ outcome.
      Yields-then _ _ (run_tools-Yields blocks)
        λ rs answered. Yields-pure _ (str_eq_refl_and id _ ∙ answered)

  run_tools-checked :
      (blocks : List Block)
      → run_tools (checked_host host) client cwd blocks ≡ run_tools host client cwd blocks
  unfolding run_tools run_tool run_bash run_editor
  run_tools-checked [] = refl
  run_tools-checked (text t ∷ blocks) = run_tools-checked blocks
  run_tools-checked (other ∷ blocks) = run_tools-checked blocks
  run_tools-checked (tool_use id name input ∷ blocks) =
      bind-same refl λ outcome. bind-same (run_tools-checked blocks) λ rest. refl

  turns-checked :
      (llm : LlmClient W) (left : ℕ) (prompt : String) (messages : List Message)
      → is_paired messages ≡ true
      → turns (checked_host host) client cwd (checked llm) left (user prompt ∷ messages)
        ≡ turns host client cwd llm left (user prompt ∷ messages)
  unfolding turns is_transcript
  turns-checked llm zero prompt messages p = refl
  turns-checked llm (suc left) prompt messages p = bind-same (create-checked llm _ p) λ response.
      when-same (str_eq response.stop_reason "tool_use")
        (bind-same (run_tools-checked response.content) (λ results. refl)
          ∙ bind-same_then _ _ _ (run_tools-Yields response.content) (λ results answered.
            let whole =
              append_assoc messages (assistant response.content ∷ []) (tool_results results ∷ []) in
            rw whole (
              turns-checked llm left prompt _
                (are_answered-snoc messages response.content results p answered))))
        refl

module _ {W : Type 0} (host : Host W) where
  stub_or_real :
      (b : Bool) (m n : Exec W (LlmClient W))
      → (when b
          perform m >>= (λ llm. pure (checked llm))
          otherwise n >>= (λ llm. pure (checked llm)))
        ≡ (when b perform m otherwise n) >>= λ llm. pure (checked llm)
  unfolding when◌perform◌otherwise◌
  stub_or_real true m n = refl
  stub_or_real false m n = refl

  -- What follows a client from the checked host follows a checked client.
  pub get_llm_client-checked :
      {A : Type 0} (ticket_id : Option String) (f : LlmClient W → Exec W A)
      → get_llm_client (checked_host host) ticket_id >>= f
        ≡ get_llm_client host ticket_id >>= λ llm. f (checked llm)
  unfolding get_llm_client
  get_llm_client-checked ticket_id f =
      ap (λ m. m >>= f) (stub_or_real _ _ _) ∙ bind-mapped _ checked f

  pub run_agentic_loop-checked :
      (client : RuntimeClient W) (cwd prompt : String) (feedback ticket_id : Option String)
      → run_agentic_loop (checked_host host) client cwd prompt feedback ticket_id
        ≡ run_agentic_loop host client cwd prompt feedback ticket_id
  unfolding run_agentic_loop is_paired
  run_agentic_loop-checked client cwd prompt feedback ticket_id =
      get_llm_client-checked ticket_id _
      ∙ bind-same refl (λ llm. turns-checked host client cwd llm max_tool_calls _ [] refl)
