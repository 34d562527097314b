-- ===== src/Server/Progress.antt =====
-- The attempts that server/runner.py extracts from the successive updates of the executor.
use syndicate.Prelude.{
  ◌≡◌, ◌∙◌, refl, ap, sym, String, Bool-cases, some, List, [], ◌∷◌, ◌++◌, length, drop, drop-append,
  inl, inr,
}
use syndicate.State.Update.{no_update}
use syndicate.Graph.{executor}
use syndicate.Server.Value.{Fields}
use syndicate.Server.Events.{Python}
use syndicate.Server.Registry.{RunRecord}
use syndicate.Server.Attempts.{contains, attempts_of, extract_attempts}

module _ {ℓ} {A : Type ℓ} where
  abbrev pub flatten : List (List A) → List A
  flatten [] = []
  flatten (xs ∷ xss) = xs ++ flatten xss

module _ (py : Python) where
  attempts_of-append :
      (xs ys : List String) → attempts_of py (xs ++ ys) ≡ attempts_of py xs ++ attempts_of py ys
  unfolding attempts_of
  attempts_of-append [] ys = refl
  attempts_of-append (x ∷ xs) ys =
      let rest = attempts_of-append xs ys in
      elim (Bool-cases (contains "fast_check" x)) [ inl e ↦ rw (e, rest) refl | inr e ↦ rw e rest ]

  -- The attempts that are extracted from updates of the executor, each of which has more lines in the
  -- log than the one before.
  unfoldable pub extracted : List String → List (List String) → RunRecord → List Fields
  extracted log [] r = []
  extracted log (lines ∷ more) r =
      let found =
        extract_attempts py executor (record no_update { attempt_log = some (log ++ lines) }) r in
      found.1 ++ extracted (log ++ lines) more found.0

  -- If the record has counted the lines of the log so far, then the attempts that successive updates of
  -- the executor give are those of the new lines, each once and in order, however the lines are
  -- divided among the updates.
  pub extracted-flatten :
      (log : List String) (more : List (List String)) (r : RunRecord)
      → r.last_attempt_log_len ≡ length log
      → extracted log more r ≡ attempts_of py (flatten more)
  unfolding extracted extract_attempts attempts_of
  extracted-flatten log [] r h = refl
  extracted-flatten log (lines ∷ more) r h =
      let new : drop r.last_attempt_log_len (log ++ lines) ≡ lines =
        ap (λ n. drop n (log ++ lines)) h ∙ drop-append log lines in
      let rest =
        extracted-flatten (log ++ lines) more
          (record r { last_attempt_log_len = length (log ++ lines) }) refl in
      rw (new, rest) (sym (attempts_of-append lines (flatten more)))
