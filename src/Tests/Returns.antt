-- ===== src/Tests/Returns.antt =====
-- The real smoke test of scripts/smoke_e2e_real.py returns over the small sandbox with a repository.
use syndicate.Prelude.{◌≡◌, refl, str_int, is_space, strip, join, str}
use syndicate.Engine
use syndicate.Nodes.Oversight
use syndicate.Scripts.SmokeReal
use syndicate.Tests.World.{demo, empty_world}
use syndicate.Exec.{◌>>=◌, pure, raise, trying, when◌perform◌otherwise◌, ok}
use syndicate.Scripts.RunRealIssue.{ainvoke}
use syndicate.Engine.{reference}
use syndicate.Graph.{
  build_graph, node_of, edge_of, dispatch_router, oversight_git_router, validator_router,
}
use syndicate.Nodes.Analyzer.{analyzer_node, analyze}
use syndicate.Nodes.Architect.{architect_node, when_both, detect, detect_verification_command, plan}
use syndicate.Nodes.Executor.{executor_node, attempts, run_fast_checks, run_checks, run_dummies}
use syndicate.Nodes.Loop.{run_agentic_loop, get_llm_client, turns, run_tools}
use syndicate.Host.{repr_list, repr_option}
use syndicate.Llm.{reply_text}
use syndicate.Nodes.Ask.{call_llm_json, parse_llm_json}
use syndicate.Nodes.Diagnosis.{byte_length, drop_bytes, replacements, truncate_diagnosis}
use syndicate.Nodes.Ledger.{advance_node, escalate_node, join_or}
use syndicate.Nodes.Oversight.{
  commit_files, head, identify, message_of, oversight_git_node, paths_of, strike,
}
use syndicate.Nodes.Shell.{all_safe, escape, is_safe, quote}
use syndicate.Nodes.Tools.{catching, run_bash, run_editor, run_tool}
use syndicate.Nodes.Validator.{validator_node}
use syndicate.Scripts.Checks.{require}
use syndicate.Server.Attempts.{contains}

main-returns : (SmokeReal.main reference demo "/work" empty_world).0 ≡ ok tt
unfolding SmokeReal.main ◌>>=◌ SmokeReal.run_ticket ainvoke Engine.run build_graph node_of
    analyzer_node edge_of architect_node when_both executor_node attempts run_agentic_loop
    get_llm_client turns run_fast_checks run_checks pure raise trying when◌perform◌otherwise◌
    dispatch_router oversight_git_router validator_router repr_list repr_option reply_text analyze
    detect detect_verification_command plan call_llm_json parse_llm_json byte_length drop_bytes
    replacements truncate_diagnosis run_dummies advance_node escalate_node join_or run_tools
    commit_files head identify message_of oversight_git_node paths_of Oversight.run strike all_safe
    escape is_safe quote catching run_bash run_editor run_tool validator_node str_int is_space strip
    join str require SmokeReal.count_lines SmokeReal.count_strikes contains
main-returns = refl
