-- ===== src/Scripts/Checks.antt =====
-- What the scripts under scripts/ share: assertions. Their messages are texts for a reader, and are
-- left out, as are the lines that the scripts print.
use syndicate.Prelude.{◌≡◌, refl, ap, Bool, true, false}
use syndicate.Exec.{Exec, Result, ok, Exception, external, pure, raise, when◌perform◌otherwise◌}
use syndicate.Exec.Total.{Total, Total-pure}

abbrev pub assertion_error : Exception
assertion_error = external "AssertionError"

-- `assert test, message`
unfoldable pub require : {W : Type 0} → Bool → Exec W (Unit {0})
require test = when test perform pure tt otherwise raise assertion_error

pub require-Total :
    {W : Type 0} {test : Bool} → test ≡ true → Total {W = W} (λ done. Unit {0}) (require test)
unfolding require when◌perform◌otherwise◌
require-Total e = rw e (Total-pure tt tt)

-- What an assertion that held says; it changes nothing.
pub require-eq-ok :
    {W : Type 0} (test : Bool) (w : W) {done : Unit {0}} {w' : W}
    → require test w ≡ (ok done, w')
    → (test ≡ true) × (w ≡ w')
unfolding require when◌perform◌otherwise◌ pure raise
require-eq-ok true w h = (refl, ap (λ (p : Result (Unit {0}) × _). p.1) h)
require-eq-ok false w h = absurd (cc (ap (λ (p : Result (Unit {0}) × _). p.0) h))
