-- ===== src/Nodes/Architect/Planned.antt =====
-- What `architect_node` of syndicate/nodes.py has asked of the sandbox and of the model, and what it made
-- of the answers, whether it returns or raises.
use syndicate.Prelude.{
  ◌⊎◌, ◌≡◌, refl, String, ◌<>◌, Bool, true, false, Option, some, none, List, [], ◌∷◌, inl, inr,
  or_text, or_else_text, truthy_text,
}
use syndicate.Exec.{
  Exec, Result, Exception, ok, raised, file_not_found, value_error, runtime_error, key_error,
  external, pure, raise, trying, continue, when◌perform◌otherwise◌, ◌>>=◌,
}
use syndicate.State.{AgentState, GithubIssue, JsonObject}
use syndicate.State.Update.{no_update}
use syndicate.Runtime.Base.{RuntimeClient}
use syndicate.Host.{Host}
use syndicate.Nodes.Config.{architect_model, default_workspace_dir}
use syndicate.Nodes.Ask.{text_or, issue_key, call_llm_json}
use syndicate.Nodes.Architect.{
  manifest_or, detect, detect_verification_command, architect_prompt, no_command, ticket_from, plan,
  when_both, architect_node,
}

-- The manifests in the order of their precedence, with their commands.
abbrev pub known_manifests : List (String × String)
known_manifests =
    ("pyproject.toml", "python3 -m pytest -q")
    ∷ ("pytest.ini", "python3 -m pytest -q")
    ∷ ("setup.cfg", "python3 -m pytest -q")
    ∷ ("package.json", "npm test")
    ∷ ("Cargo.toml", "cargo test")
    ∷ ("go.mod", "go test ./...")
    ∷ ("Gemfile", "bundle exec rspec")
    ∷ []

abbrev is_missing : Exception → Bool
is_missing (file_not_found path) = true
is_missing _ = false

module _ {W : Type 0} (client : RuntimeClient W) (dir : String) where
  -- The manifests are read one by one, from one world to the next, up to the first that is there: its
  -- command is the result. Another exception than that of a missing file ends the search.
  pub data Detects : List (String × String) → W → Result (Option String) → W → Type 0 where
    nothing : (w : W) → Detects [] w (ok none) w
    present :
        (filename command content : String) (manifests : List (String × String)) (w w' : W)
        → client.read_file (dir <> "/" <> filename) w ≡ (ok content, w')
        → Detects ((filename, command) ∷ manifests) w (ok (some command)) w'
    missing :
        (filename command path : String) (manifests : List (String × String)) (w v w' : W)
        (r : Result (Option String))
        → client.read_file (dir <> "/" <> filename) w ≡ (raised (file_not_found path), v)
        → Detects manifests v r w'
        → Detects ((filename, command) ∷ manifests) w r w'
    failing :
        (filename command : String) (x : Exception) (manifests : List (String × String)) (w w' : W)
        → is_missing x ≡ false
        → client.read_file (dir <> "/" <> filename) w ≡ (raised x, w')
        → Detects ((filename, command) ∷ manifests) w (raised x) w'

  read_result :
      (filename command : String) (manifests : List (String × String)) (w v : W) (r : Result String)
      → ((u : W)
          → Detects manifests u (detect client dir manifests u).0 (detect client dir manifests u).1)
      → client.read_file (dir <> "/" <> filename) w ≡ (r, v)
      → Detects
          ((filename, command) ∷ manifests)
          w
          (manifest_or command (detect client dir manifests) r v).0
          (manifest_or command (detect client dir manifests) r v).1
  unfolding pure raise
  read_result f c ms w v (ok content) h e = present f c content ms w v e
  read_result f c ms w v (raised (file_not_found path)) h e = missing f c path ms w v _ _ e (h v)
  read_result f c ms w v (raised (value_error t)) h e = failing f c _ ms w v refl e
  read_result f c ms w v (raised (runtime_error t)) h e = failing f c _ ms w v refl e
  read_result f c ms w v (raised (key_error t)) h e = failing f c _ ms w v refl e
  read_result f c ms w v (raised (external t)) h e = failing f c _ ms w v refl e

  detect-Detects :
      (manifests : List (String × String)) (w : W)
      → Detects manifests w (detect client dir manifests w).0 (detect client dir manifests w).1
  unfolding detect trying pure
  detect-Detects [] w = nothing w
  detect-Detects ((filename, command) ∷ manifests) w =
      read_result filename command manifests w _ _ (detect-Detects manifests) refl

-- The command of a reply and of a search: the first that is not empty, or none.
chosen-cases :
    (a b : Option String)
    → ((command : String) × (or_else_text a b ≡ some command)
        × ((((a ≡ some command) × (truthy_text (some command) ≡ true))
              ⊎ ((truthy_text a ≡ false)
                  × (b ≡ some command)
                  × (truthy_text (some command) ≡ true)))
            × (truthy_text (some command) ≡ true)))
      ⊎ ((or_else_text a b ≡ b) × (truthy_text a ≡ false) × (truthy_text b ≡ false))
chosen-cases none none = inr (refl, refl, refl)
chosen-cases none (some String.[]) = inr (refl, refl, refl)
chosen-cases none (some (String.◌∷◌ c s)) =
    inl (String.◌∷◌ c s, refl, (inr (refl, refl, refl), refl))
chosen-cases (some String.[]) none = inr (refl, refl, refl)
chosen-cases (some String.[]) (some String.[]) = inr (refl, refl, refl)
chosen-cases (some String.[]) (some (String.◌∷◌ c s)) =
    inl (String.◌∷◌ c s, refl, (inr (refl, refl, refl), refl))
chosen-cases (some (String.◌∷◌ c s)) b = inl (String.◌∷◌ c s, refl, (inl (refl, refl), refl))

module _ {W : Type 0} (host : Host W) (issue : GithubIssue) (analysis : JsonObject) where
  abbrev dir : String
  dir = or_text issue.workspace_dir default_workspace_dir

  -- The model is asked once, with what the search found in the prompt.
  abbrev Asks : Option String → W → Result JsonObject → W → Type 0
  Asks detected v r w' =
      call_llm_json host (issue_key issue "architect") architect_model
        (architect_prompt host issue analysis detected) 1024 v
      ≡ (r, w')

  -- The command of the model's reply, if it has one that is not empty, and else the one that was found.
  abbrev IsChosen : JsonObject → Option String → String → Type 0
  IsChosen planned detected command =
      ((planned.verification_command ≡ some command) × (truthy_text (some command) ≡ true))
      ⊎ ((truthy_text planned.verification_command ≡ false)
          × (detected ≡ some command)
          × (truthy_text (some command) ≡ true))

  -- A plan from one world to another, with what it returns or raises.
  pub data Plans : W → Result AgentState → W → Type 0 where
    no_client :
        (x : Exception) (w w' : W)
        → host.get_runtime_client w ≡ (raised x, w')
        → Plans w (raised x) w'
    unsearched :
        (client : RuntimeClient W) (x : Exception) (w v w' : W)
        → host.get_runtime_client w ≡ (ok client, v)
        → Detects client dir known_manifests v (raised x) w'
        → Plans w (raised x) w'
    unanswered :
        (client : RuntimeClient W) (detected : Option String) (x : Exception) (w v u w' : W)
        → host.get_runtime_client w ≡ (ok client, v)
        → Detects client dir known_manifests v (ok detected) u
        → Asks detected u (raised x) w'
        → Plans w (raised x) w'
    refused :
        (client : RuntimeClient W) (detected : Option String) (planned : JsonObject) (w v u w' : W)
        → host.get_runtime_client w ≡ (ok client, v)
        → Detects client dir known_manifests v (ok detected) u
        → Asks detected u (ok planned) w'
        → truthy_text planned.verification_command ≡ false
        → truthy_text detected ≡ false
        → Plans w (raised (value_error (no_command host issue))) w'
    planned :
        (client : RuntimeClient W) (detected : Option String) (reply : JsonObject)
        (command : String) (w v u w' : W)
        → host.get_runtime_client w ≡ (ok client, v)
        → Detects client dir known_manifests v (ok detected) u
        → Asks detected u (ok reply) w'
        → IsChosen reply detected command
        → Plans w
            (ok (record no_update {
              active_ticket = some (ticket_from host issue reply dir command);
            }))
            w'

  -- The end of the node, behind the reply.
  abbrev concluded : JsonObject → Option String → Exec W AgentState
  concluded reply command =
      when truthy_text command
      perform pure (record no_update {
        active_ticket = some (ticket_from host issue reply dir (text_or command ""));
      })
      otherwise raise (value_error (no_command host issue))

  concluded-Plans :
      (client : RuntimeClient W) (detected : Option String) (reply : JsonObject) (w v u w' : W)
      → host.get_runtime_client w ≡ (ok client, v)
      → Detects client dir known_manifests v (ok detected) u
      → Asks detected u (ok reply) w'
      → let q = concluded reply (or_else_text reply.verification_command detected) w' in
        Plans w q.0 q.1
  unfolding when◌perform◌otherwise◌ pure raise
  concluded-Plans client detected reply w v u w' got found asked =
      elim (chosen-cases reply.verification_command detected) [
        | inl (command, e, p) ↦
            rw (e, p.1) (planned client detected reply command w v u w' got found asked p.0)
        | inr (e, none_given, none_found) ↦
            rw (e, none_found)
              (refused client detected reply w v u w' got found asked none_given none_found)
      ]

  at_reply :
      (client : RuntimeClient W) (detected : Option String) (r : Result JsonObject) (w v u w' : W)
      → host.get_runtime_client w ≡ (ok client, v)
      → Detects client dir known_manifests v (ok detected) u
      → Asks detected u r w'
      → let q =
          continue r
            (λ reply. concluded reply (or_else_text reply.verification_command detected))
            w' in
        Plans w q.0 q.1
  at_reply client detected (ok reply) w v u w' got found asked =
      concluded-Plans client detected reply w v u w' got found asked
  at_reply client detected (raised x) w v u w' got found asked =
      unanswered client detected x w v u w' got found asked

  -- The node behind the search.
  abbrev answered : Option String → Exec W AgentState
  answered detected =
      call_llm_json host (issue_key issue "architect") architect_model
        (architect_prompt host issue analysis detected) 1024
      >>= λ reply. concluded reply (or_else_text reply.verification_command detected)

  at_search :
      (client : RuntimeClient W) (r : Result (Option String)) (w v u : W)
      → host.get_runtime_client w ≡ (ok client, v)
      → Detects client dir known_manifests v r u
      → Plans w (continue r answered u).0 (continue r answered u).1
  unfolding ◌>>=◌
  at_search client (ok detected) w v u got found = at_reply client detected _ w v u _ got found refl
  at_search client (raised x) w v u got found = unsearched client x w v u got found

  at_client :
      (r : Result (RuntimeClient W)) (w v : W)
      → host.get_runtime_client w ≡ (r, v)
      → let q = continue r (λ client. detect client dir known_manifests >>= answered) v in
        Plans w q.0 q.1
  unfolding ◌>>=◌
  at_client (ok client) w v got =
      at_search client _ w v _ got (detect-Detects client dir known_manifests v)
  at_client (raised x) w v got = no_client x w v got

  plan-Plans : (w : W) → Plans w (plan host issue analysis w).0 (plan host issue analysis w).1
  unfolding plan detect_verification_command ◌>>=◌
  plan-Plans w = at_client _ w _ refl

module _ {W : Type 0} (host : Host W) where
  -- What the node does for an issue and its analysis. Without one of them it does nothing.
  abbrev pub IsPlanned : Option GithubIssue → Option JsonObject → W → Result AgentState → W → Type 0
  IsPlanned (some issue) (some analysis) w r w' = Plans host issue analysis w r w'
  IsPlanned none analysis w r w' = (r ≡ ok no_update) × (w ≡ w')
  IsPlanned (some issue) none w r w' = (r ≡ ok no_update) × (w ≡ w')

  when_both-IsPlanned :
      (issue : Option GithubIssue) (analysis : Option JsonObject) (w : W)
      → IsPlanned issue analysis w
          (when_both host issue analysis w).0
          (when_both host issue analysis w).1
  unfolding when_both pure
  when_both-IsPlanned none analysis w = (refl, refl)
  when_both-IsPlanned (some issue) none w = (refl, refl)
  when_both-IsPlanned (some issue) (some analysis) w = plan-Plans host issue analysis w

  -- The architect, whether it returns or raises: with an issue and its analysis at hand it looks for the
  -- test manifests one by one, up to the first that is there, asks the model once with the command of
  -- that one in the prompt, and returns a ticket for the issue in its workspace, made of the reply, with
  -- the command of the reply, or, if that is missing or empty, with the one that was found. It raises
  -- only what the sandbox raises, other than for a missing manifest, or what the model raises, or the
  -- `ValueError` of the node if neither the reply nor the search has a command. Without an issue or an
  -- analysis it returns no update and acts on nothing.
  pub architect_node-IsPlanned :
      (s : AgentState) (w : W)
      → IsPlanned s.issue s.issue_analysis w (architect_node host s w).0 (architect_node host s w).1
  unfolding architect_node
  architect_node-IsPlanned s w = when_both-IsPlanned s.issue s.issue_analysis w
