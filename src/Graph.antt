-- ===== src/Graph.antt =====
-- The routers and `build_graph` of syndicate/nodes.py: which node runs after which.
pub mod Writes
pub mod Logs
pub mod Calls
pub mod Transcript
use syndicate.Prelude.{leb, is_empty, or_zero, truthy_flag, if◌then◌else◌}
use syndicate.Exec.{Exec, pure}
use syndicate.State.{AgentState, is_done, is_escalated, is_halted}
use syndicate.State.Update.{no_update}
use syndicate.Host.{Host}
use syndicate.Nodes.Config.{max_strikes}
use syndicate.Nodes.Executor.{ticket_of, executor_node}
use syndicate.Nodes.Analyzer.{analyzer_node}
use syndicate.Nodes.Architect.{architect_node}
use syndicate.Nodes.Validator.{validator_node}
use syndicate.Nodes.Oversight.{files_of, oversight_git_node}
use syndicate.Nodes.Ledger.{escalate_node, advance_node}

pub data Node : Type 0 where
  analyzer architect dispatch executor validator oversight_git escalate advance : Node

-- Where an edge leads: `halt` is `END`.
pub data Target : Type 0 where
  halt : Target
  to : Node → Target

-- `_dispatch_router`
unfoldable pub dispatch_router : AgentState → Target
dispatch_router s =
    if is_halted s.run_status
    then halt
    else if is_escalated s.ticket_status
    then halt
    else if truthy_flag s.last_validation_passed
    then halt
    else to executor

-- `_validator_router`
unfoldable pub validator_router : AgentState → Target
validator_router s =
    if truthy_flag s.last_validation_passed
    then to oversight_git
    else if leb max_strikes (or_zero s.strike_count)
    then to escalate
    else to executor

-- `_oversight_git_router`
unfoldable pub oversight_git_router : AgentState → Target
oversight_git_router s =
    if is_done s.ticket_status
    then to advance
    else if is_empty (files_of (ticket_of s))
    then to advance
    else if leb max_strikes (or_zero s.strike_count)
    then to escalate
    else to executor

-- What the builder is given: an entry point, a function for each node, and the edges. An edge that
-- does not depend on the state is a constant router.
pub record StateGraph (W : Type 0) : Type 0 where
  pub entry_point : Node
  pub node : Node → AgentState → Exec W AgentState
  pub edge : Node → AgentState → Target

unfoldable pub edge_of : Node → AgentState → Target
unfolding dispatch_router validator_router oversight_git_router
edge_of analyzer s = to architect
edge_of architect s = to dispatch
edge_of dispatch s = dispatch_router s
edge_of executor s = to validator
edge_of validator s = validator_router s
edge_of oversight_git s = oversight_git_router s
edge_of escalate s = to advance
edge_of advance s = to dispatch

module _ {W : Type 0} (host : Host W) where
  -- `dispatch_node` returns `{}`.
  unfoldable pub node_of : Node → AgentState → Exec W AgentState
  node_of analyzer s = analyzer_node host s
  node_of architect s = architect_node host s
  node_of dispatch s = pure no_update
  node_of executor s = executor_node host s
  node_of validator s = validator_node host s
  node_of oversight_git s = oversight_git_node host s
  node_of escalate s = pure (escalate_node host.max_escalations s)
  node_of advance s = pure (advance_node s)

  unfoldable pub build_graph : StateGraph W
  build_graph = record { entry_point = analyzer; node = node_of; edge = edge_of }
