-- ===== src/Run/Honest.antt =====
-- Where in a run a ticket may be `DONE`: only behind the report of the oversight of git.
use mathlib.Core.Logic.{inl, inr}
use syndicate.Prelude.{◌≡◌, ◌⊎◌, true, false, some, truthy_flag, arith}
use syndicate.State.{AgentState, done, is_done}
use syndicate.State.Update.{overlay}
use syndicate.Host.{Host}
use syndicate.Nodes.Ledger.{escalate_node, advance_node}
use syndicate.Graph.{
  Node, Target, halt, to, analyzer, architect, dispatch, executor, validator, oversight_git,
  escalate, advance, edge_of,
}
use syndicate.Graph.Writes.{NodeWrites}

-- Where a run stands: `L` says of the world that a ticket was just committed.
module _ (L : Type 0) where
  abbrev IsSettled : AgentState → Type 0
  IsSettled s =
      (is_done s.ticket_status ≡ false) ⊎ (L × (truthy_flag s.last_validation_passed ≡ true))

  abbrev pub IsHonest : Target → AgentState → Type 0
  IsHonest halt s = IsSettled s
  IsHonest (to dispatch) s = IsSettled s
  IsHonest (to advance) s = IsSettled s
  IsHonest (to oversight_git) s =
      (is_done s.ticket_status ≡ false) × (truthy_flag s.last_validation_passed ≡ true)
  IsHonest (to analyzer) s = is_done s.ticket_status ≡ false
  IsHonest (to architect) s = is_done s.ticket_status ≡ false
  IsHonest (to executor) s = is_done s.ticket_status ≡ false
  IsHonest (to validator) s = is_done s.ticket_status ≡ false
  IsHonest (to escalate) s = is_done s.ticket_status ≡ false

pub IsHonest-settled :
    (L : Type 0) (t : Target) (s : AgentState)
    → IsHonest L t s
    → (is_done s.ticket_status ≡ false) ⊎ L
IsHonest-settled L halt s (inl h) = inl h
IsHonest-settled L halt s (inr h) = inr h.0
IsHonest-settled L (to dispatch) s (inl h) = inl h
IsHonest-settled L (to dispatch) s (inr h) = inr h.0
IsHonest-settled L (to advance) s (inl h) = inl h
IsHonest-settled L (to advance) s (inr h) = inr h.0
IsHonest-settled L (to oversight_git) s h = inl h.0
IsHonest-settled L (to analyzer) s h = inl h
IsHonest-settled L (to architect) s h = inl h
IsHonest-settled L (to executor) s h = inl h
IsHonest-settled L (to validator) s h = inl h
IsHonest-settled L (to escalate) s h = inl h

-- A node takes a run that is honest to one that is. `K` is what is known after a report.
module _ {W : Type 0} (host : Host W) (L K : Type 0) where
  pub step-IsHonest :
      (n : Node) (s u : AgentState)
      → NodeWrites host n s u
      → (n ≡ oversight_git → u.ticket_status ≡ some done → K)
      → (n ≡ dispatch → L → K)
      → (n ≡ advance → L → K)
      → IsHonest L (to n) s
      → IsHonest K (edge_of n (overlay s u)) (overlay s u)
  unfolding edge_of escalate_node advance_node
  step-IsHonest analyzer s u x o d a h = ground arith
  step-IsHonest architect s u x o d a h = ground arith
  step-IsHonest dispatch s u x o d a h = ground arith
  step-IsHonest executor s u x o d a h = ground arith
  step-IsHonest validator s u x o d a h = ground arith
  step-IsHonest oversight_git s u x o d a h = ground arith
  step-IsHonest escalate s u x o d a h = ground arith
  step-IsHonest advance s u x o d a h = ground arith
