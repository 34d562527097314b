-- ===== src/Llm.antt =====
-- The one seam to the language model: what `client.messages.create` takes and returns, as
-- syndicate/nodes.py and syndicate/stub_llm.py use it.
use syndicate.Prelude.{ℕ, String, Bool, Option, List, [], ◌∷◌, ◌<>◌}
use syndicate.Exec.{Exec}

-- The keys of a tool's input that the program reads, at the types of the tools' schemas.
pub record ToolInput : Type 0 where
  pub restart : Option Bool
  pub command : Option String
  pub path : Option String
  pub file_text : Option String
  pub old_str : Option String
  pub new_str : Option String

-- A block of a reply: `tool_use id name input`, and `other` for types that the program skips.
pub data Block : Type 0 where
  text : String → Block
  tool_use : String → String → ToolInput → Block
  other : Block

pub record ToolResult : Type 0 where
  pub tool_use_id : String
  pub content : String
  pub is_error : Bool

pub data Message : Type 0 where
  user : String → Message
  assistant : List Block → Message
  tool_results : List ToolResult → Message

-- A tool is its type and its name.
pub record Request : Type 0 where
  pub model : String
  pub max_tokens : ℕ
  pub tools : List (String × String)
  pub messages : List Message

pub record Response : Type 0 where
  pub content : List Block
  pub stop_reason : String

pub record LlmClient (W : Type 0) : Type 0 where
  pub create : Request → Exec W Response

-- `''.join(block.text for block in content if block.type == 'text')`
unfoldable pub reply_text : List Block → String
reply_text [] = ""
reply_text (text t ∷ blocks) = t <> reply_text blocks
reply_text (tool_use id name input ∷ blocks) = reply_text blocks
reply_text (other ∷ blocks) = reply_text blocks
