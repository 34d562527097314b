-- ===== src/Nodes/Oversight/Done.antt =====
-- `DONE` is reported only when `HEAD` moved.
use syndicate.Prelude.{
  String, ◌<>◌, ◌≡◌, ◌≢◌, refl, sym, ◌∙◌, ap, subst, true, false, Option, none, some, List, arith,
  is_zero, is_empty, or_nil, strip, eq_iff, if◌then◌else◌,
}
use syndicate.Exec.{ok, pure}
use syndicate.Exec.Yields.{Returned, Yields}
use syndicate.Exec.Invert.{>>=-eq-ok, when-eq-ok, pure-eq-ok}
use syndicate.State.{AgentState, done}
use syndicate.Runtime.Base.{ActionResult, RuntimeClient}
use syndicate.Host.{Host}
use syndicate.Nodes.Shell.{quote}
use syndicate.Nodes.Executor.{ticket_of, workspace_of}
use syndicate.Nodes.Oversight.{
  files_of, is_unmoved, paths_of, message_of, run, head, strike, identify, commit_files,
  oversight_git_node,
}

-- What a `git rev-parse HEAD` that answered says: the name of `HEAD`, or that there is none.
abbrev pub answer : ActionResult → Option String
answer r = if is_zero r.exit_code then some (strip r.output) else none

-- The sandbox answers `git rev-parse HEAD` by the `HEAD` of the directory that it is asked in, and the
-- question changes nothing of it. Nothing is assumed of the answers to other commands.
pub record ReportsHead {W : Type 0} (head_of : String → W → Option String) (cwd : String)
    (client : RuntimeClient W) : Type 0 where
  pub reports :
      (w : W)
      → Returned
          (λ r. answer r ≡ head_of cwd w)
          (client.run_action "git rev-parse HEAD" (some cwd) none w).0
  pub keeps :
      (w : W)
      → head_of cwd (client.run_action "git rev-parse HEAD" (some cwd) none w).1 ≡ head_of cwd w

module _ {W : Type 0} (client : RuntimeClient W) (s : AgentState) where
  -- A command of the node, from one world to the next.
  abbrev pub Answers : String → W → ActionResult → W → Type 0
  Answers command w r w' =
      client.run_action command (some (workspace_of (ticket_of s))) none w ≡ (ok r, w')

  -- From one world to another: `HEAD` was asked for, the paths were staged and the commit was made,
  -- both with exit code 0, and `HEAD` was asked for again, with another answer.
  pub record Committed (before after : W) : Type 0 where
    pub staging : W
    pub committing : W
    pub asking : W
    pub old : ActionResult
    pub added : ActionResult
    pub committed : ActionResult
    pub new : ActionResult
    pub asked : Answers "git rev-parse HEAD" before old staging
    pub staged :
        Answers ("git add -- " <> paths_of (files_of (ticket_of s))) staging added committing
    pub staged_zero : is_zero added.exit_code ≡ true
    pub landed :
        Answers
          ("git commit -m " <> quote (message_of (ticket_of s) (or_nil s.attempt_log)))
          committing
          committed
          asking
    pub landed_zero : is_zero committed.exit_code ≡ true
    pub asked_again : Answers "git rev-parse HEAD" asking new after
    pub moved : is_unmoved (answer old) (answer new) ≡ false

module _ {W : Type 0} (client : RuntimeClient W) (cwd : String) where
  run-eq-ok :
      (command : String) (log : List String) (w : W)
      → {out : ActionResult × List String} {w' : W} → run client cwd command log w ≡ (ok out, w')
      → client.run_action command (some cwd) none w ≡ (ok out.0, w')
  unfolding run
  run-eq-ok command log w {out} h =
      let (r, v, p, q) = >>=-eq-ok _ _ w h in
      let (e, e') = pure-eq-ok _ v q in cc (p, e', ap (λ (x : ActionResult × List String). x.0) e)

  head-eq-ok :
      (log : List String) (w : W)
      → {out : Option String × List String} {w' : W} → head client cwd log w ≡ (ok out, w')
      → (r : ActionResult) × (client.run_action "git rev-parse HEAD" (some cwd) none w ≡ (ok r, w'))
        × (answer r ≡ out.0)
  unfolding head
  head-eq-ok log w {out} h =
      let (r, v, p, q) = >>=-eq-ok _ _ w h in
      let (e, e') = pure-eq-ok _ v q in
      (
        r.0,
        cc (run-eq-ok "git rev-parse HEAD" log w p, e'),
        ap (λ (x : Option String × List String). x.0) e,
      )

module _ {W : Type 0} (host : Host W) (client : RuntimeClient W) (s : AgentState) where
  not-strike :
      (log : List String) (reason : String) (w : W) {u : AgentState} {w' : W}
      → u.ticket_status ≡ some done
      → ¬ (pure (strike s log reason) w ≡ (ok u, w'))
  unfolding strike
  not-strike log reason w d h =
      let (e, e') = pure-eq-ok _ w h in cc (d, ap (λ (u : AgentState). u.ticket_status) e)

  commit-done :
      (log : List String) (w : W) {u : AgentState} {w' : W}
      → commit_files host client s log w ≡ (ok u, w')
      → u.ticket_status ≡ some done
      → Committed client s w w'
  unfolding commit_files
  commit-done log w h d =
      let (old, w₁, p₁, h₁) = >>=-eq-ok _ _ w h in
      let (added, w₂, p₂, h₂) = >>=-eq-ok _ _ w₁ h₁ in
      let (z₂, k₂) = when-eq-ok _ _ _ w₂ h₂ (not-strike _ _ w₂ d) in
      let (committed, w₃, p₃, h₃) = >>=-eq-ok _ _ w₂ k₂ in
      let (z₃, k₃) = when-eq-ok _ _ _ w₃ h₃ (not-strike _ _ w₃ d) in
      let (new, w₄, p₄, h₄) = >>=-eq-ok _ _ w₃ k₃ in
      let (moved, k₄) = when-eq-ok _ _ _ w₄ h₄ (not-strike _ _ w₄ d) in
      let (r₁, q₁, a₁) = head-eq-ok client _ _ w p₁ in
      let (r₄, q₄, a₄) = head-eq-ok client _ _ w₃ p₄ in
      let (e, e') = pure-eq-ok _ w₄ k₄ in
      record {
        staging = w₁;
        committing = w₂;
        asking = w₃;
        old = r₁;
        added = added.0;
        committed = committed.0;
        new = r₄;
        asked = q₁;
        staged = run-eq-ok client _ _ _ w₁ p₂;
        staged_zero = ground (arith, z₂);
        landed = run-eq-ok client _ _ _ w₂ p₃;
        landed_zero = ground (arith, z₃);
        asked_again = subst (λ v. Answers client s "git rev-parse HEAD" w₃ r₄ v) e' q₄;
        moved = rw (a₁, a₄) moved;
      }

-- A name that is not unmoved is another one.
moved-ne :
    (old new : Option String)
    → is_unmoved old new ≡ false
    → (name : String) × (new ≡ some name) × (old ≢ some name)
moved-ne old none h = cc
moved-ne none (some new) h = (new, refl, λ e. cc)
moved-ne (some old) (some new) h = (new, refl, λ e. ground (arith, eq_iff new old))

module _ {W : Type 0} (head_of : String → W → Option String) (client : RuntimeClient W)
    (s : AgentState) where
  -- The name of `HEAD` in the workspace of the ticket.
  abbrev pub name_of : W → Option String
  name_of = head_of (workspace_of (ticket_of s))

  reported :
      (r : ReportsHead head_of (workspace_of (ticket_of s)) client)
      → (w : W) (a : ActionResult) (w' : W) → Answers client s "git rev-parse HEAD" w a w'
      → (answer a ≡ name_of w) × (name_of w' ≡ name_of w)
  reported r w a w' h = (rw h at (r.reports w), rw h at (r.keeps w))

  -- `HEAD` resolves after a commit that was reported, to another name than before.
  Committed-moved :
      {before after : W}
      → ReportsHead head_of (workspace_of (ticket_of s)) client
      → Committed client s before after
      → (name : String) × (name_of after ≡ some name) × (name_of before ≢ some name)
  Committed-moved {before} {after} r c =
      let (name, found, other) = moved-ne _ _ c.moved in
      let (was, kept) = reported r before c.old c.staging c.asked in
      let (is, kept') = reported r c.asking c.new after c.asked_again in
      (name, kept' ∙ sym is ∙ found, λ e. other (was ∙ e))

module _ {W : Type 0} (head_of : String → W → Option String) (host : Host W) (s : AgentState) where
  -- From the world in which the node starts to the one that it leaves: the client that it is given
  -- there, the repository that it sets up with it, its commands from then on, and what came of `HEAD`.
  pub record Verified (start after : W) : Type 0 where
    pub client : RuntimeClient W
    pub opened : W
    pub got : host.get_runtime_client start ≡ (ok client, opened)
    pub log : List String
    pub before : W
    pub identified : identify client (workspace_of (ticket_of s)) opened ≡ (ok log, before)
    pub commit : Committed client s before after
    pub name : String
    pub now : head_of (workspace_of (ticket_of s)) after ≡ some name
    pub old : head_of (workspace_of (ticket_of s)) before ≢ some name

  -- If the sandbox answers `git rev-parse HEAD` truly in the workspace of the ticket, and
  -- `oversight_git_node` reports `DONE`, then the ticket declared files, and after the repository was
  -- set up, the client that the node was given staged the paths and committed them, both with exit code
  -- 0, from the world that the set-up left to the one that the node leaves; `HEAD` of the workspace now
  -- resolves to a name that it did not have before. Nothing is assumed of the answers to `git add` and
  -- `git commit`.
  pub oversight-done :
      (w : W) {u : AgentState} {w' : W}
      → Yields (ReportsHead head_of (workspace_of (ticket_of s))) host.get_runtime_client
      → oversight_git_node host s w ≡ (ok u, w')
      → u.ticket_status ≡ some done
      → (is_empty (files_of (ticket_of s)) ≡ false) × Verified w w'
  unfolding oversight_git_node
  oversight-done w y h d =
      let (client, w₁, p₁, h₁) = >>=-eq-ok _ _ w h in
      let (log, w₂, p₂, h₂) = >>=-eq-ok _ _ w₁ h₁ in
      let (files, h₃) =
        when-eq-ok _ _ _ w₂ h₂
          (λ e. cc (d, ap (λ (u : AgentState). u.ticket_status) (pure-eq-ok _ w₂ e).0)) in
      let c : Committed client s w₂ _ = commit-done host client s log w₂ h₃ d in
      let (name, now, old) = Committed-moved head_of client s (rw p₁ at (y.at w)) c in
      (
        files,
        record {
          client = client;
          opened = w₁;
          got = p₁;
          log = log;
          before = w₂;
          identified = p₂;
          commit = c;
          name = name;
          now = now;
          old = old;
        },
      )
