-- ===== src/Scripts/SmokePassed.antt =====
-- What a run of scripts/smoke_e2e_real.py that passes has seen.
use mathlib.Core.Bool.{false≢true}
use syndicate.Prelude.{
  ◌≡◌, ◌∙◌, ap, sym, subst, inl, inr, refl, String, true, ◌||◌, none, some, [], ◌∷◌, leb,
  truthy_flag, arith, ◌≤◌, Option,
}
use syndicate.Exec.{Result, ok}
use syndicate.Exec.Invert.{>>=-eq-ok, success_lem}
use syndicate.Exec.Yields.{Returned}
use syndicate.State.{AgentState, Ticket, TicketStatus, is_done, is_escalated}
use syndicate.State.Update.{no_update}
use syndicate.Host.{Host}
use syndicate.Graph.{to, build_graph}
use syndicate.Engine.{Engine, IsLanggraph, Run, Ending}
use syndicate.Run.Outcome.{Finished, stream-Outcome}
use syndicate.Scripts.Checks.{require-eq-ok}
use syndicate.Scripts.RunRealIssue.{invoked, ainvoke}
use syndicate.Scripts.SmokeReal.{
  trivial_ticket, seeded_failure_ticket, count_lines, count_strikes, is_local_pass, run_ticket,
  main,
}

count_lines-single : (line : String) → count_lines (line ∷ []) ≤ 1
unfolding count_lines
count_lines-single line = ground arith

not-escalated :
    (status : Option TicketStatus)
    → (is_done status || is_local_pass status) ≡ true
    → is_escalated status ≡ true
    → ⊥
not-escalated none d e = false≢true e
not-escalated (some TicketStatus.pending) d e = false≢true e
not-escalated (some TicketStatus.in_progress) d e = false≢true e
not-escalated (some TicketStatus.local_pass) d e = false≢true e
not-escalated (some TicketStatus.done) d e = false≢true e
not-escalated (some TicketStatus.escalated) d e = false≢true d

module _ {W : Type 0} (engine : Engine W) (lawful : IsLanggraph engine) (host : Host W) where
  abbrev ticket_run : Ticket → W → Run W
  ticket_run ticket w =
      engine.stream (build_graph host) 25 (to (build_graph host).entry_point)
        (record no_update { active_ticket = some ticket }) w

  abbrev starting : Ticket → AgentState
  starting ticket = record no_update { active_ticket = some ticket }

  -- A run on a ticket that has returned.
  record IsCompleted (ticket : Ticket) (w : W) (s : AgentState) (w' : W) : Type 0 where
    ending : (ticket_run ticket w).ending ≡ Ending.completed
    state : (ticket_run ticket w).state ≡ s
    world : (ticket_run ticket w).world ≡ w'

  invoked-IsCompleted :
      (ticket : Ticket) (w : W) {s : AgentState} {w' : W} (e : Ending)
      → (ticket_run ticket w).ending ≡ e
      → invoked (ticket_run ticket w).state e ≡ ok s
      → (ticket_run ticket w).world ≡ w'
      → IsCompleted ticket w s w'
  invoked-IsCompleted ticket w Ending.completed e h v = record {
    ending = e;
    state = cc h;
    world = v;
  }
  invoked-IsCompleted ticket w (Ending.failed x) e h v = absurd (cc h)
  invoked-IsCompleted ticket w Ending.out_of_steps e h v = absurd (cc h)

  run_ticket-IsCompleted :
      (ticket : Ticket) (w : W) {s : AgentState} {w' : W}
      → run_ticket engine host ticket w ≡ (ok s, w')
      → IsCompleted ticket w s w'
  unfolding run_ticket ainvoke
  run_ticket-IsCompleted ticket w h =
      invoked-IsCompleted ticket w (ticket_run ticket w).ending refl
        (ap (λ (p : Result AgentState × W). p.0) h) (ap (λ (p : Result AgentState × W). p.1) h)

  completed-Finished :
      (ticket : Ticket) (w : W) {s : AgentState} {w' : W}
      → IsCompleted ticket w s w'
      → Finished host (starting ticket) (ticket_run ticket w).state
  completed-Finished ticket w c =
      elim (stream-Outcome engine lawful host 25 (starting ticket) w (omega arith) refl
        (refl, refl)) [ inl (e, h) ↦ h | inr (x, e) ↦ absurd (cc (c.ending, e)) ]

  one_strike :
      (ticket : Ticket) (s : AgentState)
      → Finished host (starting ticket) s
      → leb 1 (count_strikes s) ≡ true
      → count_strikes s ≡ 1
  unfolding count_strikes
  one_strike ticket s f h =
      let few : count_strikes s ≤ 1 = rw (f.attempt_log, f.ledger) (count_lines-single _) in
      ground (arith, few)

  settled-validated :
      (ticket : Ticket) (s : AgentState)
      → Finished host (starting ticket) s
      → (is_done s.ticket_status || is_local_pass s.ticket_status) ≡ true
      → (truthy_flag s.last_validation_passed ≡ true) × (s.escalation_count ≡ none)
  settled-validated ticket s f h = elim f.settled [
    | inl (e, _, _) ↦ absurd (not-escalated s.ticket_status h e)
    | inr (v, c, _) ↦ (v, c)
  ]

  -- What the script has done when it passes on a workspace, from one world to another: a run on the
  -- trivial ticket, and one on the other ticket in the world that the first one left.
  pub record IsPassed (workspace : String) (w w' : W) : Type 0 where
    pub trivial : Run W
    pub trivial_run : trivial ≡ ticket_run (trivial_ticket workspace) w
    pub trivial_ending : trivial.ending ≡ Ending.completed
    pub validated : truthy_flag trivial.state.last_validation_passed ≡ true
    pub uncounted : trivial.state.escalation_count ≡ none
    pub seeded : Run W
    pub seeded_run : seeded ≡ ticket_run (seeded_failure_ticket workspace) trivial.world
    pub seeded_ending : seeded.ending ≡ Ending.completed
    pub strikes : count_strikes seeded.state ≡ 1
    pub left : seeded.world ≡ w'

  main-eq-ok :
      (workspace : String) (w : W) (done : Unit {0}) (w' : W)
      → main engine host workspace w ≡ (ok done, w')
      → IsPassed workspace w w'
  unfolding main
  main-eq-ok workspace w done w' h =
      let (s₁, w₁, ran, h₁) = >>=-eq-ok _ _ w h in
      let first = run_ticket-IsCompleted (trivial_ticket workspace) w ran in
      let (done₂, w₂, resolved, h₂) = >>=-eq-ok _ _ w₁ h₁ in
      let (test₂, at₂) = require-eq-ok _ w₁ resolved in
      let (s₃, w₃, ran₃, h₃) = >>=-eq-ok _ _ w₂ h₂ in
      let second =
        run_ticket-IsCompleted (seeded_failure_ticket workspace)
          (ticket_run (trivial_ticket workspace) w).world
          (subst (λ v. run_ticket engine host (seeded_failure_ticket workspace) v ≡ (ok s₃, w₃))
            (sym (first.world ∙ at₂)) ran₃) in
      let (done₄, w₄, least, h₄) = >>=-eq-ok _ _ w₃ h₃ in
      let (test₄, at₄) = require-eq-ok _ w₃ least in
      let (done₅, w₅, most, h₅) = >>=-eq-ok _ _ w₄ h₄ in
      let (test₅, at₅) = require-eq-ok _ w₄ most in
      let (test₆, at₆) = require-eq-ok _ w₅ h₅ in
      let passed =
        settled-validated (trivial_ticket workspace) (ticket_run (trivial_ticket workspace) w).state
          (completed-Finished (trivial_ticket workspace) w first)
          (subst
            (λ (s : AgentState). (is_done s.ticket_status || is_local_pass s.ticket_status) ≡ true)
            (sym first.state) test₂) in
      record {
        trivial = ticket_run (trivial_ticket workspace) w;
        trivial_run = refl;
        trivial_ending = first.ending;
        validated = passed.0;
        uncounted = passed.1;
        seeded = _;
        seeded_run = refl;
        seeded_ending = second.ending;
        strikes =
            one_strike (seeded_failure_ticket workspace) _
              (completed-Finished (seeded_failure_ticket workspace) _ second)
              (subst (λ (s : AgentState). leb 1 (count_strikes s) ≡ true) (sym second.state) test₄);
        left = second.world ∙ at₄ ∙ at₅ ∙ at₆;
      }

  -- Whatever the world that the script starts in: if it returns then its run on the trivial ticket
  -- completed, the ticket passed its validation and was not counted as escalated; its run on the other
  -- ticket, in the world that the first one left, completed, and the number of strikes that the script
  -- compares with 1 and 3 is exactly 1, however many attempts there were, since it is that of the
  -- ledger's one entry; and nothing is done after it.
  pub main-IsPassed :
      (workspace : String) (w : W)
      → Returned
          (λ done. IsPassed workspace w (main engine host workspace w).1)
          (main engine host workspace w).0
  main-IsPassed workspace w =
      success_lem (IsPassed workspace w) (main engine host workspace) w (main-eq-ok workspace w)
