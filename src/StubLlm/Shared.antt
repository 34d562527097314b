-- ===== src/StubLlm/Shared.antt =====
-- The process of a run with the stand-in for the model: the scripts of syndicate/stub_llm.py beside
-- the world of the sandbox.
use syndicate.Prelude.{String, Option, some, str_eq, if◌then◌else◌}
use syndicate.Exec.{pure, ◌>>=◌}
use syndicate.Exec.Beside.{on_left, on_right}
use syndicate.Runtime.Base.{RuntimeClient}
use syndicate.Llm.{LlmClient}
use syndicate.Host.{Host}
use syndicate.StubLlm.{Stubs, get_stub_client}

abbrev pub Shared : Type 0 → Type 0
Shared W = W × Stubs

-- A sandbox knows nothing of the scripts.
abbrev pub sandboxed : {W : Type 0} → RuntimeClient W → RuntimeClient (Shared W)
sandboxed client = record {
  is_mock = client.is_mock;
  run_action = λ action cwd timeout. on_left (client.run_action action cwd timeout);
  read_file = λ path. on_left (client.read_file path);
  write_file = λ path content. on_left (client.write_file path content);
  edit_file = λ path old new. on_left (client.edit_file path old new);
}

abbrev pub scripted : {W : Type 0} → LlmClient Stubs → LlmClient (Shared W)
scripted llm = record { create = λ request. on_right (llm.create request) }

-- `os.environ['SYNDICATE_STUB_LLM'] = '1'`
abbrev pub with_stub : (String → Option String) → String → Option String
with_stub environ key = if str_eq key "SYNDICATE_STUB_LLM" then some "1" else environ key

-- What syndicate/nodes.py takes from outside, when `get_stub_client` is that of syndicate/stub_llm.py.
abbrev pub stub_host : {W : Type 0} → Host W → Host (Shared W)
stub_host host = record {
  environ = with_stub host.environ;
  get_runtime_client = on_left host.get_runtime_client >>= λ client. pure (sandboxed client);
  get_stub_client = λ id. on_right (get_stub_client host.repr id) >>= λ llm. pure (scripted llm);
  anthropic = on_left host.anthropic >>= λ llm.
      pure (record { create = λ request. on_left (llm.create request) });
  max_escalations = host.max_escalations;
  repr = host.repr;
  repr_ticket = host.repr_ticket;
  loads = host.loads;
}
