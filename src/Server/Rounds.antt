-- ===== src/Server/Rounds.antt =====
-- The attempts that server/runner.py extracts from an update of the executor of syndicate/nodes.py are
-- the rounds of the executor's loop.
use mathlib.Core.Bool.{false≢true}
use mathlib.Core.List.{append_assoc, append-nil}
use syndicate.Prelude.{
  ℕ, zero, suc, ◌+◌, ◌-◌, ◌≤◌, ◌≡◌, ◌∙◌, refl, ap, sym, String, ◌<>◌, false, Option, some, List, [],
  ◌∷◌, ◌++◌, length, drop, drop-append, str, str_int, pos, or_nil, or_zero, arith,
}
use syndicate.Exec.Yields.{
  Yields, Yields-pure, Yields-bind, Yields-then, Yields-when, Yields-weaken,
}
use syndicate.State.{AgentState, Ticket}
use syndicate.Runtime.Base.{ActionResult, RuntimeClient}
use syndicate.Host.{Host}
use syndicate.Graph.{executor}
use syndicate.Nodes.Config.{max_strikes}
use syndicate.Nodes.Executor.{attempts, executor_node}
use syndicate.Server.Events.{Python}
use syndicate.Server.Registry.{RunRecord}
use syndicate.Server.Attempts.{attempts_of, logged_attempts, extract_attempts}
use syndicate.Server.Strikes.{Round, lines_of, attempts_in, attempts_of-lines_of}

-- The rounds have the numbers behind `before`, one by one.
abbrev pub AreNumbered : ℕ → List Round → Type 0
AreNumbered before [] = Unit
AreNumbered before (r ∷ rs) = (r.strike ≡ before + 1) × AreNumbered (before + 1) rs

-- An update whose log has the lines of some rounds behind the lines of a log.
pub record IsLogged (before left : ℕ) (log : List String) (u : AgentState) : Type 0 where
  pub rounds : List Round
  pub lines : u.attempt_log ≡ some (log ++ lines_of rounds)
  pub numbered : AreNumbered before rounds
  pub few : length rounds ≤ left

-- One more round in front.
IsLogged-more :
    (before left : ℕ) (log : List String) (r : Round) (u : AgentState)
    → r.strike ≡ before + 1
    → IsLogged (before + 1) left (log ++ lines_of (r ∷ [])) u
    → IsLogged before (suc left) log u
IsLogged-more before left log r u n h = record {
  rounds = r ∷ h.rounds;
  lines = h.lines ∙ ap some (append_assoc log (lines_of (r ∷ [])) (lines_of h.rounds));
  numbered = (n, h.numbered);
  few = omega (arith, h.few);
}

module _ {W : Type 0} (host : Host W) (client : RuntimeClient W) where
  abbrev round : ℕ → String → ActionResult → Round
  round n summary check = record {
    strike = n;
    summary = host.repr summary;
    check = str_int check.exit_code <> " output=" <> host.repr check.output;
  }

  attempts-IsLogged :
      (ticket : Ticket) (left before : ℕ) (log : List String) (feedback : Option String)
      → Yields (IsLogged before left log) (attempts host client ticket left before log feedback)
  unfolding attempts
  attempts-IsLogged ticket zero before log feedback = Yields-pure _ (record {
    rounds = [];
    lines = ap some (sym (append-nil log));
    numbered = tt;
    few = omega arith;
  })
  attempts-IsLogged ticket (suc left) before log feedback = Yields-bind _ _ λ (summary : String).
      Yields-bind _ _ λ (check : ActionResult).
        let r = round (before + 1) summary check in
        Yields-when _ _ _
          (λ passed.
            Yields-pure _
              (record { rounds = r ∷ []; lines = refl; numbered = (refl, tt); few = omega arith }))
          λ failed.
            Yields-weaken _ (λ u. IsLogged-more before left log r u refl)
              (attempts-IsLogged ticket left (before + 1) _ _)

module _ (py : Python) (reads : (n : ℕ) → py.int (str n) ≡ some (pos n)) where
  -- The log of an update is that of before with the two lines of each of some rounds behind it, and the
  -- attempts that are extracted from it are exactly those of these rounds.
  pub record IsExtracted (before left : ℕ) (log : List String) (r : RunRecord) (u : AgentState)
      : Type 0 where
    pub rounds : List Round
    pub lines : u.attempt_log ≡ some (log ++ lines_of rounds)
    pub numbered : AreNumbered before rounds
    pub few : length rounds ≤ left
    pub extracted : (extract_attempts py executor u r).1 ≡ attempts_in rounds

  IsLogged-IsExtracted :
      (before left : ℕ) (log : List String) (r : RunRecord) (u : AgentState)
      → r.last_attempt_log_len ≡ length log
      → IsLogged before left log u
      → IsExtracted before left log r u
  unfolding extract_attempts
  IsLogged-IsExtracted before left log r u counted h = record {
    rounds = h.rounds;
    lines = h.lines;
    numbered = h.numbered;
    few = h.few;
    extracted =
        ap (λ o. (logged_attempts py o r).1) h.lines
        ∙ ap (λ n. attempts_of py (drop n (log ++ lines_of h.rounds))) counted
        ∙ ap (attempts_of py) (drop-append log (lines_of h.rounds))
        ∙ attempts_of-lines_of py reads h.rounds;
  }

  -- If `int` reads what `str` writes, the runtime is not the mock, and the record has counted the lines
  -- of the log so far, then the log that the executor returns is that of before with the lines of the
  -- rounds of its loop behind it, and the attempts that are extracted are exactly these rounds, in order,
  -- with their strikes, which are numbered on from the strikes before and are no more than those that
  -- were left. A round is an attempt with its line about the fast checks;
  -- its line with the summary is another one before it if the summary mentions `fast_check`.
  pub executor_node-IsExtracted :
      {W : Type 0} (host : Host W) (s : AgentState) (r : RunRecord)
      → r.last_attempt_log_len ≡ length (or_nil s.attempt_log)
      → Yields (λ client. client.is_mock ≡ false) host.get_runtime_client
      → Yields
          (IsExtracted
            (or_zero s.strike_count)
            (max_strikes - or_zero s.strike_count)
            (or_nil s.attempt_log)
            r)
          (executor_node host s)
  unfolding executor_node
  executor_node-IsExtracted host s r counted real = Yields-then _ _ real λ client live.
      Yields-when _ _ _ (λ mock. absurd (false≢true (sym live ∙ mock)))
        λ other.
          Yields-weaken _ (λ u. IsLogged-IsExtracted _ _ _ r u counted)
            (attempts-IsLogged host client _ _ _ _ _)
