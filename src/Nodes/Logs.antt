-- ===== src/Nodes/Logs.antt =====
-- How many lines the nodes add to the log of attempts.
use syndicate.Prelude.{
  ℕ, zero, suc, ◌+◌, ◌*◌, ◌≤◌, String, ◌≡◌, Option, List, [], ◌∷◌, arith, given, or_nil, length,
  length-append,
}
use syndicate.Exec.Yields.{
  Yields, Yields-pure, Yields-bind, Yields-then, Yields-when, Yields-weaken,
}
use syndicate.State.{AgentState, Ticket}
use syndicate.Runtime.Base.{ActionResult, RuntimeClient}
use syndicate.Host.{Host}
use syndicate.Nodes.Config.{dummy_actions}
use syndicate.Nodes.Executor.{run_dummies, attempts, executor_node}
use syndicate.Nodes.Oversight.{run, identify, head, commit_files, strike, oversight_git_node}

-- The lines of the log after an update.
abbrev pub lines_after : AgentState → AgentState → ℕ
lines_after s u = length (or_nil (given u.attempt_log s.attempt_log))

-- An update adds `n` lines at most.
abbrev pub Adds : ℕ → AgentState → AgentState → Type 0
Adds n s u = lines_after s u ≤ length (or_nil s.attempt_log) + n

module _ {W : Type 0} (host : Host W) (client : RuntimeClient W) (s : AgentState) where
  dummies-lines :
      (actions log : List String)
      → Yields
          (λ u. lines_after s u ≤ length log + length actions)
          (run_dummies host client log actions)
  unfolding run_dummies
  dummies-lines [] log = Yields-pure _ (ground arith)
  dummies-lines (action ∷ actions) log = Yields-bind _ _ λ (result : ActionResult).
      Yields-weaken _ (λ u h. omega (arith, h, length-append {0} log)) (dummies-lines actions _)

  attempts-lines :
      (ticket : Ticket) (left before : ℕ) (log : List String) (feedback : Option String)
      → Yields
          (λ u. lines_after s u ≤ length log + 2 * left)
          (attempts host client ticket left before log feedback)
  unfolding attempts
  attempts-lines ticket zero before log feedback = Yields-pure _ (omega arith)
  attempts-lines ticket (suc left) before log feedback = Yields-bind _ _ λ (summary : String).
      Yields-bind _ _ λ (check : ActionResult).
        Yields-when _ _ _ (λ passed. Yields-pure _ (omega (arith, length-append {0} log)))
          λ failed.
            Yields-weaken _ (λ u h. omega (arith, h, length-append {0} log))
              (attempts-lines ticket left (before + 1) _ _)

module _ {W : Type 0} (client : RuntimeClient W) (cwd : String) where
  -- A log with one more line.
  abbrev IsNext : {A : Type 0} → List String → A × List String → Type 0
  IsNext log r = length r.1 ≡ length log + 1

  run-IsNext :
      (command : String) (log : List String) → Yields (IsNext log) (run client cwd command log)
  unfolding run
  run-IsNext command log =
      Yields-bind _ _
        λ (result : ActionResult). Yields-pure _ (omega (arith, length-append {0} log))

  head-IsNext : (log : List String) → Yields (IsNext log) (head client cwd log)
  unfolding head
  head-IsNext log = Yields-then _ _ (run-IsNext _ log) λ r h. Yields-pure _ h

  identify-lines : Yields (λ (log : List String). length log ≤ 4) (identify client cwd)
  unfolding identify
  identify-lines = Yields-then _ _ (run-IsNext _ []) λ repo h.
      Yields-then {P = λ (log : List String). length log ≤ 2} _ _
        (Yields-when _ _ _ (λ _. Yields-pure _ (omega (arith, h)))
          λ _. Yields-then _ _ (run-IsNext _ _) λ r k. Yields-pure _ (omega (arith, h, k)))
        λ log k. Yields-then _ _ (run-IsNext _ _) λ name l.
          Yields-then _ _ (run-IsNext _ _) λ email m. Yields-pure _ (omega (arith, k, l, m))

module _ {W : Type 0} (host : Host W) (s : AgentState) where
  strike-Adds :
      (log : List String) (reason : String) (n : ℕ)
      → length log + 1 ≤ n
      → Adds n s (strike s log reason)
  unfolding strike
  strike-Adds log reason n h =
      omega (arith, h, length-append {0} (or_nil s.attempt_log), length-append {0} log)

  commit-Adds :
      (client : RuntimeClient W) (log : List String)
      → length log ≤ 4
      → Yields (Adds 9 s) (commit_files host client s log)
  unfolding commit_files
  commit-Adds client log h = Yields-then _ _ (head-IsNext client _ log) λ old k.
      Yields-then _ _ (run-IsNext client _ _ old.1) λ added l.
        Yields-when _ _ _ (λ _. Yields-pure _ (strike-Adds added.1 _ 9 (omega (arith, k, l))))
          λ _. Yields-then _ _ (run-IsNext client _ _ added.1) λ committed m.
            Yields-when _ _ _
              (λ _. Yields-pure _ (strike-Adds committed.1 _ 9 (omega (arith, k, l, m))))
              λ _. Yields-then _ _ (head-IsNext client _ committed.1) λ new o.
                Yields-when _ _ _
                  (λ _. Yields-pure _ (strike-Adds new.1 _ 9 (omega (arith, k, l, m, o))))
                  λ _.
                    Yields-pure _
                      (omega (arith, k, l, m, o, length-append {0} (or_nil s.attempt_log)))

  -- The oversight of git logs eight commands at most, and a reason.
  pub oversight-Adds : Yields (Adds 9 s) (oversight_git_node host s)
  unfolding oversight_git_node
  oversight-Adds = Yields-bind _ _ λ client. Yields-then _ _ (identify-lines client _) λ log h.
      Yields-when _ _ _
        (λ _. Yields-pure _ (omega (arith, h, length-append {0} (or_nil s.attempt_log))))
        λ _. commit-Adds client log h

  -- The executor logs two lines for each attempt.
  pub executor-Adds : Yields (Adds 9 s) (executor_node host s)
  unfolding executor_node
  executor-Adds = Yields-bind _ _ λ client.
      Yields-when _ _ _
        (λ _.
          Yields-weaken _ (λ u h. omega (arith, h)) (dummies-lines host client s dummy_actions _))
        λ _. Yields-weaken _ (λ u h. omega (arith, h)) (attempts-lines host client s _ _ _ _ _)
