-- ===== src/Scripts/Report.antt =====
-- What scripts/run_real_issue.py prints and returns.
use mathlib.Core.Bool.{false≢true}
use mathlib.Core.Logic.{inl, inr}
use syndicate.Prelude.{
  ◌≡◌, ◌∙◌, ◌⊎◌, refl, subst, String, ◌&&◌, Bool, true, false, Bool-cases, Option, none, some, List,
  [], ◌∷◌, ◌++◌, truthy_text, truthy_flag, arith, if◌then◌else◌,
}
use syndicate.Exec.{Exec, ok, pure, when◌perform◌otherwise◌}
use syndicate.Exec.Yields.{Returned, Yields, Yields-pure, Yields-bind, Yields-then}
use syndicate.State.{AgentState, TicketStatus, is_done, is_escalated}
use syndicate.Host.{Host}
use syndicate.Graph.{to, build_graph}
use syndicate.Engine.{Engine, IsLanggraph, Run, Ending}
use syndicate.Run.Outcome.{distilled, IsOutcome, Finished, stream-Outcome}
use syndicate.Scripts.RunRealIssue.{
  Namespace, Environ, Rendering, Exit, blocked, no_url, without_key, heading, decision_line, report,
  invoked, initial_state, ainvoke, run_issue, main,
}

not-both : (status : Option TicketStatus) → is_done status ≡ true → is_escalated status ≡ true → ⊥
not-both none d e = false≢true d
not-both (some TicketStatus.pending) d e = false≢true d
not-both (some TicketStatus.in_progress) d e = false≢true d
not-both (some TicketStatus.local_pass) d e = false≢true d
not-both (some TicketStatus.done) d e = false≢true e
not-both (some TicketStatus.escalated) d e = false≢true d

module _ {W : Type 0} (engine : Engine W) (lawful : IsLanggraph engine) (hosts : Environ → Host W)
    (read_text : String → Exec W String) (render : Rendering) (environ : Environ)
    (args : Namespace) where
  -- The modules of the program never see that the mock was asked for.
  abbrev real_host : Host W
  real_host = hosts (without_key "SYNDICATE_MOCK_CLIENT" environ)

  abbrev issue_run : String → W → Run W
  issue_run body w =
      engine.stream (build_graph real_host) 25 (to (build_graph real_host).entry_point)
        (initial_state args body) w

  -- The code for a final state: 0 for a ticket that is done, which was validated and not escalated.
  abbrev IsCode : AgentState → Exit → Type 0
  IsCode s e =
      ((is_done s.ticket_status ≡ false) × (e.code ≡ 1))
      ⊎ ((is_done s.ticket_status ≡ true)
          × (e.code ≡ 0)
          × (truthy_flag s.last_validation_passed ≡ true)
          × (s.escalation_count ≡ none))

  -- The report on a run that completed.
  pub record IsReport (e : Exit) : Type 0 where
    pub body : String
    pub world : W
    pub log : List String
    pub ending : (issue_run body world).ending ≡ Ending.completed
    pub code : IsCode (issue_run body world).state e
    pub printed :
        e.printed
        ≡ heading render args (issue_run body world).state ++ (decision_line (distilled log) ∷ [])

  report-IsCode :
      (s₀ s : AgentState)
      → s₀.escalation_count ≡ none
      → Finished real_host s₀ s
      → IsCode s (report render args s)
  unfolding report
  report-IsCode s₀ s new h = elim (Bool-cases (is_done s.ticket_status)) [
    | inr other ↦ rw other (inl (refl, refl))
    | inl done ↦ elim h.settled [
      | inl (e, _, _) ↦ absurd (not-both s.ticket_status done e)
      | inr (v, c, _) ↦ rw done (inr (refl, refl, v, c ∙ new))
    ]
  ]

  report-printed :
      (s₀ s : AgentState)
      → s₀.decision_ledger ≡ none
      → (h : Finished real_host s₀ s)
      → (report render args s).printed
        ≡ heading render args s ++ (decision_line (distilled h.log) ∷ [])
  unfolding report
  report-printed s₀ s new h = rw (h.attempt_log, h.ledger, new) refl

  -- The state is the final one of a run that completed.
  record IsFinal (body : String) (s : AgentState) : Type 0 where
    world : W
    ending : (issue_run body world).ending ≡ Ending.completed
    state : s ≡ (issue_run body world).state
    finished : Finished real_host (initial_state args body) s

  at_outcome :
      (body : String) (w : W)
      → IsOutcome real_host (initial_state args body) (issue_run body w)
      → Returned (IsFinal body) (invoked (issue_run body w).state (issue_run body w).ending)
  at_outcome body w (inl (e, h)) =
      rw e (record { world = w; ending = e; state = refl; finished = h })
  at_outcome body w (inr (x, e)) = rw e tt

  outcome :
      (body : String) (w : W) → IsOutcome real_host (initial_state args body) (issue_run body w)
  outcome body w =
      stream-Outcome engine lawful real_host 25 (initial_state args body) w (omega arith) refl
        (refl, refl)

  ainvoke-Yields :
      (body : String) → Yields (IsFinal body) (ainvoke engine real_host (initial_state args body))
  unfolding ainvoke
  ainvoke-Yields body = record { at = λ w. at_outcome body w (outcome body w) }

  final-IsReport :
      (body : String) (s : AgentState) → IsFinal body s → IsReport (report render args s)
  final-IsReport body s f = record {
    body = body;
    world = f.world;
    log = f.finished.log;
    ending = f.ending;
    code =
        subst (λ t. IsCode t (report render args s)) f.state
          (report-IsCode (initial_state args body) s refl f.finished);
    printed =
        subst
          (λ t.
            (report render args s).printed
            ≡ heading render args t ++ (decision_line (distilled f.finished.log) ∷ []))
          f.state (report-printed (initial_state args body) s refl f.finished);
  }

  run_issue-Yields : Yields IsReport (run_issue engine hosts read_text render environ args)
  unfolding run_issue
  run_issue-Yields =
      Yields-bind _ _
        λ body. Yields-then _ _ (ainvoke-Yields body) λ s f. Yields-pure _ (final-IsReport body s f)

  -- Whether both variables are set.
  abbrev pub is_configured : Bool
  is_configured =
      truthy_text (environ "ANTHROPIC_API_KEY") && truthy_text (environ "SYNDICATE_RUNTIME_URL")

  -- Without both variables the script does nothing to the world, says which one is missing, and exits
  -- with 2. With both it raises an exception, of the file or of a node, or it reports on a run of the
  -- graph that completed, over modules that see no SYNDICATE_MOCK_CLIENT. It then exits with 0 if the
  -- final ticket is done, which passed its last validation and was not counted as escalated, and with
  -- 1 otherwise; and it prints, behind the lines about the issue, one line for the one entry of the
  -- ledger and none for the attempts.
  pub main_lem :
      (w : W)
      → ((is_configured ≡ false)
          × ((main engine hosts read_text render environ args w).1 ≡ w)
          × ((main engine hosts read_text render environ args w).0
              ≡ ok (
                  blocked (
                    if truthy_text (environ "ANTHROPIC_API_KEY")
                    then no_url
                    else "ANTHROPIC_API_KEY not set"))))
        ⊎ ((is_configured ≡ true)
            × Returned IsReport (main engine hosts read_text render environ args w).0)
  unfolding main when◌perform◌otherwise◌ pure
  main_lem w = elim (Bool-cases (truthy_text (environ "ANTHROPIC_API_KEY"))) [
    | inr unset ↦ rw unset (inl (refl, refl, refl))
    | inl key ↦ elim (Bool-cases (truthy_text (environ "SYNDICATE_RUNTIME_URL"))) [
      | inr unset ↦ rw (key, unset) (inl (refl, refl, refl))
      | inl url ↦ rw (key, url) (inr (refl, run_issue-Yields.at w))
    ]
  ]
