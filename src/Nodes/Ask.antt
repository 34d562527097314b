-- ===== src/Nodes/Ask.antt =====
-- `_issue_key`, `_parse_llm_json` and `_call_llm_json` of syndicate/nodes.py
use syndicate.Prelude.{ℕ, String, ◌≡◌, refl, ◌<>◌, Option, none, some, [], ◌∷◌, str}
use syndicate.Exec.{Exec, ok, raised, value_error, ◌>>=◌}
use syndicate.State.{GithubIssue, JsonObject}
use syndicate.Llm.{user, reply_text}
use syndicate.Host.{Host, Loaded, object, non_object, malformed}
use syndicate.Nodes.Loop.{get_llm_client}

-- `d.get(key, default)`
abbrev pub text_or : Option String → String → String
text_or none default = default
text_or (some value) default = value

-- `f'{issue.get("number", default)}'`
abbrev pub number_or : Option ℕ → String → String
number_or none default = default
number_or (some n) default = str n

pub issue_key : GithubIssue → String → String
issue_key issue role = role <> ":" <> text_or issue.repo "" <> "#" <> number_or issue.number ""

issue_key_example :
    issue_key
      (record {
        repo = some "o/r";
        number = some 7;
        title = none;
        body = none;
        workspace_dir = none;
      })
      "architect"
    ≡ "architect:o/r#7"
unfolding issue_key str
issue_key_example = refl

module _ {W : Type 0} (host : Host W) where
  abbrev pub check_loaded : Loaded → String → Exec W JsonObject
  check_loaded (object parsed) reply w = (ok parsed, w)
  check_loaded non_object reply w =
      (raised (value_error ("LLM response JSON was not an object: " <> host.repr reply)), w)
  check_loaded malformed reply w =
      (raised (value_error ("LLM response was not valid JSON: " <> host.repr reply)), w)

  unfoldable pub parse_llm_json : String → Exec W JsonObject
  parse_llm_json reply = check_loaded (host.loads reply) reply

  unfoldable pub call_llm_json : String → String → String → ℕ → Exec W JsonObject
  call_llm_json key model prompt max_tokens = do
    client ← get_llm_client host (some key)
    response ←
        client.create (record {
          model = model;
          max_tokens = max_tokens;
          tools = [];
          messages = user prompt ∷ [];
        })
    parse_llm_json (reply_text response.content)
