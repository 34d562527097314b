-- ===== src/Graph/Calls.antt =====
-- How often each node of the graph calls the language model.
use syndicate.Prelude.{ℕ, String, Option, none, some, List, [], ◌∷◌, arith, given, or_zero}
use syndicate.Exec.{
  Exec, Result, ok, raised, file_not_found, value_error, runtime_error, key_error, external,
}
use syndicate.Exec.Within.{
  Within, Within-pure, Within-raise, Within-when, Within-bind, Within-bind_free, Within-free,
  Within-bind-Yields, IsFree, IsFree-bind, IsFree-bind-Yields, IsFree-pure, IsFree-raise,
  IsFree-trying, IsFree-when, free_rules,
}
use syndicate.State.{AgentState, GithubIssue, JsonObject}
use syndicate.Runtime.Base.{ActionResult, RuntimeClient}
use syndicate.Llm.{Response}
use syndicate.Host.{Host, Loaded, object, non_object, malformed}
use syndicate.Nodes.Calls.{
  Counts, IsFreeClient, llm_client-IsFree, llm_client-Yields, allowance, executor-Within,
}
use syndicate.Nodes.Ask.{check_loaded, parse_llm_json, call_llm_json}
use syndicate.Nodes.Analyzer.{analyze, analyzer_node}
use syndicate.Nodes.Architect.{
  manifest_or, detect, detect_verification_command, plan, when_both, architect_node,
}
use syndicate.Nodes.Validator.{validator_node}
use syndicate.Nodes.Oversight.{run, identify, head, commit_files, oversight_git_node}
use syndicate.Graph.{
  Node, analyzer, architect, dispatch, executor, validator, oversight_git, escalate, advance,
  node_of,
}

module _ {W : Type 0} {tally : W → ℕ} {client : RuntimeClient W}
    (c : IsFreeClient tally client) where
  run-IsFree :
      (cwd command : String) (log : List String) → IsFree tally (run client cwd command log)
  unfolding run
  run-IsFree cwd command log = search (free_rules, c.run_action)

  head-IsFree : (cwd : String) (log : List String) → IsFree tally (head client cwd log)
  unfolding head
  head-IsFree cwd log = search (free_rules, run-IsFree)

  identify-IsFree : (cwd : String) → IsFree tally (identify client cwd)
  unfolding identify
  identify-IsFree cwd = search (free_rules, run-IsFree) depth 12

  commit-IsFree :
      (host : Host W) (s : AgentState) (log : List String)
      → IsFree tally (commit_files host client s log)
  unfolding commit_files
  commit-IsFree host s log = search (free_rules, run-IsFree, head-IsFree) depth 12

  manifest-IsFree :
      (command : String) (rest : Exec W (Option String))
      → IsFree tally rest
      → (r : Result String) → IsFree tally (manifest_or command rest r)
  manifest-IsFree command rest h (ok content) = IsFree-pure _
  manifest-IsFree command rest h (raised (file_not_found e)) = h
  manifest-IsFree command rest h (raised (value_error e)) = IsFree-raise _
  manifest-IsFree command rest h (raised (runtime_error e)) = IsFree-raise _
  manifest-IsFree command rest h (raised (key_error e)) = IsFree-raise _
  manifest-IsFree command rest h (raised (external e)) = IsFree-raise _

  detect-IsFree :
      (dir : String) (manifests : List (String × String))
      → IsFree tally (detect client dir manifests)
  unfolding detect
  detect-IsFree dir [] = IsFree-pure _
  detect-IsFree dir ((filename, command) ∷ manifests) =
      IsFree-trying _ _ (c.read_file _) (manifest-IsFree command _ (detect-IsFree dir manifests))

  detect_command-IsFree : (dir : String) → IsFree tally (detect_verification_command client dir)
  unfolding detect_verification_command
  detect_command-IsFree dir = detect-IsFree dir _

module _ {W : Type 0} {tally : W → ℕ} {host : Host W} (k : Counts tally host) where
  validator-IsFree : (s : AgentState) → IsFree tally (validator_node host s)
  unfolding validator_node
  validator-IsFree s = IsFree-bind-Yields _ _ k.runtime_client k.runtime λ client c.
      IsFree-when _ _ _ (IsFree-pure _) (
        IsFree-bind _ _ (c.run_action _ _ _)
          λ (result : ActionResult). IsFree-when _ _ _ (IsFree-pure _) (IsFree-pure _))

  oversight-IsFree : (s : AgentState) → IsFree tally (oversight_git_node host s)
  unfolding oversight_git_node
  oversight-IsFree s = IsFree-bind-Yields _ _ k.runtime_client k.runtime λ client c.
      IsFree-bind _ _ (identify-IsFree c _)
        λ log. IsFree-when _ _ _ (IsFree-pure _) (commit-IsFree c host s log)

  check-IsFree : (loaded : Loaded) (reply : String) → IsFree tally (check_loaded host loaded reply)
  check-IsFree (object parsed) reply = record { at = λ w. omega arith }
  check-IsFree non_object reply = record { at = λ w. omega arith }
  check-IsFree malformed reply = record { at = λ w. omega arith }

  ask-Within :
      (key model prompt : String) (max_tokens : ℕ)
      → Within tally 1 (λ parsed. 0) (call_llm_json host key model prompt max_tokens)
  unfolding call_llm_json parse_llm_json
  ask-Within key model prompt max_tokens =
      Within-bind-Yields _ _ _ (llm_client-Yields k _) (llm_client-IsFree k _) λ llm m.
        Within-bind _ (λ response. 0) _ _ (m.create _)
          λ (response : Response). Within-free 0 _ (check-IsFree _ _)

  analyze-Within :
      (issue : Option GithubIssue) (s : AgentState) → Within tally 1 (λ u. 0) (analyze host issue s)
  unfolding analyze
  analyze-Within none s = Within-pure _ _ (omega arith)
  analyze-Within (some issue) s =
      Within-bind _ (λ analysis. 0) _ _ (ask-Within _ _ _ _)
        λ analysis. Within-pure _ _ (omega arith)

  plan-Within :
      (issue : GithubIssue) (analysis : JsonObject)
      → Within tally 1 (λ u. 0) (plan host issue analysis)
  unfolding plan
  plan-Within issue analysis = Within-bind-Yields _ _ _ k.runtime_client k.runtime λ client c.
      Within-bind_free _ _ _ (Within-free _ _ (detect_command-IsFree c _)) λ detected.
        Within-bind _ (λ planned. 0) _ _ (ask-Within _ _ _ _)
          λ (planned : JsonObject).
            Within-when _ _ _ _ (λ found. Within-pure _ _ (omega arith)) λ missing. Within-raise _ _

  architect-Within :
      (issue : Option GithubIssue) (analysis : Option JsonObject)
      → Within tally 1 (λ u. 0) (when_both host issue analysis)
  unfolding when_both
  architect-Within none analysis = Within-pure _ _ (omega arith)
  architect-Within (some issue) none = Within-pure _ _ (omega arith)
  architect-Within (some issue) (some analysis) = plan-Within issue analysis

  -- The calls that a node may make, and what is left over of them for the nodes after it.
  abbrev pub budget_of : Node → AgentState → ℕ
  budget_of analyzer s = 1
  budget_of architect s = 1
  budget_of executor s = allowance (or_zero s.strike_count)
  budget_of _ s = 0

  abbrev pub left_of : Node → AgentState → AgentState → ℕ
  left_of executor s u = allowance (or_zero (given u.strike_count s.strike_count))
  left_of _ s u = 0

  pub node-Within :
      (n : Node) (s : AgentState) → Within tally (budget_of n s) (left_of n s) (node_of host n s)
  unfolding node_of analyzer_node architect_node
  node-Within analyzer s = analyze-Within s.issue s
  node-Within architect s = architect-Within s.issue s.issue_analysis
  node-Within dispatch s = Within-pure _ _ (omega arith)
  node-Within executor s = executor-Within k s
  node-Within validator s = Within-free 0 _ (validator-IsFree s)
  node-Within oversight_git s = Within-free 0 _ (oversight-IsFree s)
  node-Within escalate s = Within-pure _ _ (omega arith)
  node-Within advance s = Within-pure _ _ (omega arith)
