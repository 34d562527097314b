-- ===== src/Graph/Transcript.antt =====
-- Every conversation that a node of the graph sends to the language model is well formed.
use syndicate.Prelude.{
  ℕ, zero, suc, ◌≡◌, ◌∙◌, refl, fun_ext, String, Option, none, some, List, [], ◌∷◌,
}
use syndicate.Exec.Same.{bind-same, when-same}
use syndicate.State.{AgentState, Ticket, GithubIssue, JsonObject}
use syndicate.Runtime.Base.{RuntimeClient}
use syndicate.Host.{Host}
use syndicate.Nodes.Ask.{parse_llm_json, call_llm_json}
use syndicate.Nodes.Analyzer.{analyze, analyzer_node}
use syndicate.Nodes.Architect.{plan, when_both, architect_node}
use syndicate.Nodes.Executor.{attempts, run_dummies, executor_node}
use syndicate.Nodes.Validator.{validator_node}
use syndicate.Nodes.Oversight.{commit_files, oversight_git_node}
use syndicate.Nodes.Transcript.{
  is_transcript, checked_host, create-checked, get_llm_client-checked, run_agentic_loop-checked,
}
use syndicate.Graph.{
  Node, analyzer, architect, dispatch, executor, validator, oversight_git, escalate, advance,
  node_of, build_graph,
}

module _ {W : Type 0} (host : Host W) where
  call_llm_json-checked :
      (key model prompt : String) (max_tokens : ℕ)
      → call_llm_json (checked_host host) key model prompt max_tokens
        ≡ call_llm_json host key model prompt max_tokens
  unfolding call_llm_json is_transcript parse_llm_json
  call_llm_json-checked key model prompt max_tokens =
      get_llm_client-checked host (some key) _
      ∙ bind-same refl (λ llm. bind-same (create-checked llm _ refl) λ response. refl)

  analyze-checked :
      (issue : Option GithubIssue) (s : AgentState)
      → analyze (checked_host host) issue s ≡ analyze host issue s
  unfolding analyze
  analyze-checked none s = refl
  analyze-checked (some issue) s = bind-same (call_llm_json-checked _ _ _ _) λ analysis. refl

  plan-checked :
      (issue : Option GithubIssue) (analysis : Option JsonObject)
      → when_both (checked_host host) issue analysis ≡ when_both host issue analysis
  unfolding when_both plan
  plan-checked none analysis = refl
  plan-checked (some issue) none = refl
  plan-checked (some issue) (some analysis) =
      bind-same refl λ client.
        bind-same refl λ detected. bind-same (call_llm_json-checked _ _ _ _) λ planned. refl

  module _ (client : RuntimeClient W) where
    run_dummies-checked :
        (actions log : List String)
        → run_dummies (checked_host host) client log actions ≡ run_dummies host client log actions
    unfolding run_dummies
    run_dummies-checked [] log = refl
    run_dummies-checked (action ∷ actions) log =
        bind-same refl λ result. run_dummies-checked actions _

    attempts-checked :
        (ticket : Ticket) (left before : ℕ) (log : List String) (feedback : Option String)
        → attempts (checked_host host) client ticket left before log feedback
          ≡ attempts host client ticket left before log feedback
    unfolding attempts
    attempts-checked ticket zero before log feedback = refl
    attempts-checked ticket (suc left) before log feedback =
        bind-same (run_agentic_loop-checked host client _ _ feedback _)
          λ summary. bind-same refl λ check. when-same _ refl (attempts-checked ticket left _ _ _)

  executor-checked : (s : AgentState) → executor_node (checked_host host) s ≡ executor_node host s
  unfolding executor_node
  executor-checked s =
      bind-same refl
        λ client. when-same _ (run_dummies-checked client _ _) (attempts-checked client _ _ _ _ _)

  node-checked : (n : Node) (s : AgentState) → node_of (checked_host host) n s ≡ node_of host n s
  unfolding node_of analyzer_node architect_node validator_node oversight_git_node commit_files
  node-checked analyzer s = analyze-checked s.issue s
  node-checked architect s = plan-checked s.issue s.issue_analysis
  node-checked dispatch s = refl
  node-checked executor s = executor-checked s
  node-checked validator s = refl
  node-checked oversight_git s = refl
  node-checked escalate s = refl
  node-checked advance s = refl

  -- The graph is the same over a host whose language model refuses every request but one with a
  -- prompt first and then turns of the model, each followed by the results of exactly its tool calls
  -- in their order: whatever the model replies and the sandbox does, no other request is made.
  pub build_graph-checked : build_graph (checked_host host) ≡ build_graph host
  unfolding build_graph
  build_graph-checked =
      λ i. record (build_graph host) { node = fun_ext (λ n. fun_ext (node-checked n)) i }
