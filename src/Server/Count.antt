-- ===== src/Server/Count.antt =====
-- A run sends fewer events than a backlog holds.
use syndicate.Prelude.{
  ℕ, zero, suc, ◌+◌, ◌-◌, ◌*◌, ◌≤◌, ◌≡◌, refl, String, Option, none, some, List, length, or_nil,
  arith,
}
use syndicate.Exec.{Result, ok, raised}
use syndicate.Exec.Yields.{Returned}
use syndicate.State.{AgentState}
use syndicate.State.Update.{overlay}
use syndicate.Host.{Host}
use syndicate.Nodes.Logs.{lines_after, Adds}
use syndicate.Graph.{Node, Target, halt, to, analyzer, build_graph}
use syndicate.Graph.Writes.{NodeWrites, node-Writes}
use syndicate.Graph.Logs.{node-Adds}
use syndicate.Engine.{Engine, IsLanggraph, Ending, run, settle, stream-run}
use syndicate.Run.Terminates.{IsEnough, step-IsEnough, not-IsEnough-zero}
use syndicate.Server.Value.{field, end, text}
use syndicate.Server.Events.{Python, EventKind}
use syndicate.Server.Registry.{RunState, RunRecord, new_record, next_seq, emit}
use syndicate.Server.Runner.{
  build_initial_state, send, send_update, send_updates, send_ending, started, graph_run, drive_run,
}
use syndicate.Server.Sent.{seq_counter-send, seq_counter-send_update}

-- The events that `k` supersteps may send, if a log has 135 lines at most when all are done.
budget : ℕ → ℕ
budget zero = 0
budget (suc k) = 2 + (135 - 9 * k) + budget k

seq_counter-send_ending :
    (py : Python) (now : ℕ → String) (message : Ending → String) (ending : Ending) (s : AgentState)
    (r : RunRecord)
    → (send_ending py now message ending s r).seq_counter ≡ r.seq_counter + 1
unfolding send_ending send next_seq emit
seq_counter-send_ending py now message Ending.completed s r = refl
seq_counter-send_ending py now message (Ending.failed x) s r = refl
seq_counter-send_ending py now message Ending.out_of_steps s r = refl

-- What an update gives of a log is in the log after it.
given-le : (s u : AgentState) → length (or_nil u.attempt_log) ≤ lines_after s u
given-le s u = written u.attempt_log refl
  where
    written :
        (log : Option (List String))
        → u.attempt_log ≡ log
        → length (or_nil u.attempt_log) ≤ lines_after s u
    written none e = rw e (omega arith)
    written (some lines) e = rw e (omega arith)

module _ {W : Type 0} (host : Host W) (py : Python) (now : ℕ → String) where
  -- A log that leaves room for nine lines in each of the `k` supersteps.
  abbrev HasRoom : AgentState → ℕ → Type 0
  HasRoom s k = length (or_nil s.attempt_log) + 9 * k ≤ 135

  settle-count :
      (k limit : ℕ) (n : Node) (s : AgentState) (x : Result AgentState) (w : W) (r : RunRecord)
      → ((t : Target) (s' : AgentState) (v : W) (q : RunRecord)
          → IsEnough t s' k
          → HasRoom s' k
          → (send_updates py now (run (build_graph host) limit t s' v).updates q).seq_counter
            ≤ q.seq_counter + budget k)
      → Returned (NodeWrites host n s) x
      → Returned (Adds 9 s) x
      → IsEnough (to n) s (suc k)
      → HasRoom s (suc k)
      → (send_updates py now
          (settle (build_graph host) (run (build_graph host) limit) n s x w).updates
          r).seq_counter
        ≤ r.seq_counter + budget (suc k)
  unfolding send_updates build_graph budget
  settle-count k limit n s (raised x) w r ih y a e h = omega arith
  settle-count k limit n s (ok u) w r ih y a e h = omega (
    arith,
    a,
    h,
    given-le s u,
    seq_counter-send_update py now n u r,
    ih _ (overlay s u) w (send_update py now n u r) (step-IsEnough host n s u k y e)
        (omega (arith, a, h)),
  )

  run-count :
      (k limit : ℕ) (t : Target) (s : AgentState) (w : W) (r : RunRecord)
      → k ≤ limit
      → IsEnough t s k
      → HasRoom s k
      → (send_updates py now (run (build_graph host) limit t s w).updates r).seq_counter
        ≤ r.seq_counter + budget k
  unfolding run send_updates
  run-count k zero halt s w r b e h = omega arith
  run-count k (suc limit) halt s w r b e h = omega arith
  run-count zero limit (to n) s w r b e h = absurd (not-IsEnough-zero n s e)
  run-count (suc k) zero (to n) s w r b e h = absurd (omega arith)
  run-count (suc k) (suc limit) (to n) s w r b e h =
      settle-count k limit n s _ _ r (λ t s' v q. run-count k limit t s' v q (omega arith))
        (unfold build_graph in (node-Writes host n s).at w)
        (unfold build_graph in (node-Adds host n s).at w) e h

module _ {W : Type 0} (engine : Engine W) (lawful : IsLanggraph engine) (host : Host W)
    (py : Python) (now : ℕ → String) (message : Ending → String) where
  graph_run-count :
      (r q : RunRecord) (w : W)
      → (send_updates py now (graph_run py now engine host message r w).updates q).seq_counter
        ≤ q.seq_counter + budget 15
  unfolding graph_run build_initial_state build_graph
  graph_run-count r q w = rw (stream-run engine lawful) (
      run-count host py now 15 25 (to analyzer) (build_initial_state r.run_id r.raw_request) w q
        (omega arith) (omega arith) (omega arith))

  -- A new run that is driven has sent 1112 events at most.
  pub seq_counter-drive_run :
      (created_at : ℕ) (run_id raw_request : String) (w : W)
      → (drive_run py now engine host message
          (new_record created_at run_id raw_request)
          w).0.seq_counter
        ≤ 1112
  unfolding drive_run new_record started budget
  seq_counter-drive_run created_at run_id raw_request w =
      let r = new_record created_at run_id raw_request in
      let run = graph_run py now engine host message r w in
      let q = started py now engine host message r in
      omega (
        arith,
        seq_counter-send py now EventKind.run_started none
            (field "raw_request" (text raw_request) end) (record r { status = RunState.running }),
        graph_run-count r q w,
        seq_counter-send_ending py now message run.ending run.state
            (send_updates py now run.updates q),
      )
