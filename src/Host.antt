-- ===== src/Host.antt =====
-- What syndicate/nodes.py takes from outside: the process environment, the clients of the sandbox
-- and of the language model, the escalation budget, and Python's rendering and parsing of values.
use syndicate.Prelude.{ℤ, String, Option, none, some, List, ◌<>◌, map, join}
use syndicate.Exec.{Exec}
use syndicate.State.{Ticket, JsonObject}
use syndicate.Runtime.Base.{RuntimeClient}
use syndicate.Llm.{LlmClient}

-- What `json.loads` returns: an object, or another value; it raises on a text that is no JSON.
pub data Loaded : Type 0 where
  object : JsonObject → Loaded
  non_object : Loaded
  malformed : Loaded

pub record Host (W : Type 0) : Type 0 where
  -- `os.environ.get`
  pub environ : String → Option String
  -- syndicate.runtime.get_runtime_client
  pub get_runtime_client : Exec W (RuntimeClient W)
  -- syndicate.stub_llm.get_stub_client
  pub get_stub_client : String → Exec W (LlmClient W)
  -- `anthropic.AsyncAnthropic()`
  pub anthropic : Exec W (LlmClient W)
  -- `int(os.environ.get('SYNDICATE_MAX_ESCALATIONS', '3'))`, read once when the module is loaded
  pub max_escalations : ℤ
  -- `repr` of a text and of a ticket
  pub repr : String → String
  pub repr_ticket : Ticket → String
  pub loads : String → Loaded

module _ {W : Type 0} (host : Host W) where
  -- `repr` of an optional text and of a list of texts
  unfoldable pub repr_option : Option String → String
  repr_option none = "None"
  repr_option (some s) = host.repr s

  unfoldable pub repr_list : List String → String
  unfolding join
  repr_list texts = "[" <> join ", " (map host.repr texts) <> "]"
