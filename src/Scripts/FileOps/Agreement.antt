-- ===== src/Scripts/FileOps/Agreement.antt =====
-- The checks of scripts/verify_runtime_fileops.py over a server that keeps files, and over a dictionary.
use mathlib.Core.Logic.{inl, inr}
use syndicate.Prelude.{ℕ, ◌≡◌, ◌∙◌, refl, sym, ap, subst, String, Bool, Option-cases, true, false}
use syndicate.Prelude.Maps.{find}
use syndicate.Exec.{
  Exec, Result, ok, raised, continue, ◌>>=◌, trying, pure, raise, file_not_found, value_error,
  runtime_error, key_error, external, when◌perform◌otherwise◌,
}
use syndicate.Runtime.Mock
use syndicate.Runtime.Mock.{Files, mock_client}
use syndicate.Runtime.OpenHands.{HttpClient, open_hands_client}
use syndicate.Runtime.Agrees.{IsFileServer, Agrees, open_hands-Agrees}
use syndicate.Scripts.Checks.{require}
use syndicate.Scripts.FileOps.{check_path, missing_path, original, expect_missing, file_checks}

module _ {W : Type 0} (http : HttpClient W) (files : W → Files) where
  continue-Agrees :
      {A B : Type 0} (r : Result A) (w : W) (f : A → Exec W B) (g : A → Exec Files B)
      → ((a : A) (v : W) → Agrees http files (f a v) (g a (files v)))
      → Agrees http files (continue r f w) (continue r g (files w))
  continue-Agrees (ok a) w f g h = h a w
  continue-Agrees (raised x) w f g h = (refl, refl)

  >>=-Agrees :
      {A B : Type 0} (m : Exec W A) (n : Exec Files A) (f : A → Exec W B) (g : A → Exec Files B)
      (w : W)
      → Agrees http files (m w) (n (files w))
      → ((a : A) (v : W) → Agrees http files (f a v) (g a (files v)))
      → Agrees http files ((m >>= f) w) ((n >>= g) (files w))
  unfolding ◌>>=◌
  >>=-Agrees m n f g w (same, kept) h =
      subst (λ v. Agrees http files (continue (m w).0 f (m w).1) (continue (n (files w)).0 g v))
        kept
        (subst (λ r. Agrees http files (continue (m w).0 f (m w).1) (continue r g (files (m w).1)))
          same (continue-Agrees (m w).0 (m w).1 f g h))

  require-Agrees :
      (test : Bool) (w : W) → Agrees http files (require test w) (require test (files w))
  unfolding require when◌perform◌otherwise◌ raise pure
  require-Agrees true w = (refl, refl)
  require-Agrees false w = (refl, refl)

  expect_missing-Agrees :
      (r : Result String) (w : W)
      → Agrees http files (expect_missing r w) (expect_missing r (files w))
  unfolding raise pure
  expect_missing-Agrees (ok content) w = (refl, refl)
  expect_missing-Agrees (raised (file_not_found path)) w = (refl, refl)
  expect_missing-Agrees (raised (value_error t)) w = (refl, refl)
  expect_missing-Agrees (raised (runtime_error t)) w = (refl, refl)
  expect_missing-Agrees (raised (key_error t)) w = (refl, refl)
  expect_missing-Agrees (raised (external t)) w = (refl, refl)

  trying-Agrees :
      {A B : Type 0} (m : Exec W A) (n : Exec Files A) (f : Result A → Exec W B)
      (g : Result A → Exec Files B) (w : W)
      → Agrees http files (m w) (n (files w))
      → ((r : Result A) (v : W) → Agrees http files (f r v) (g r (files v)))
      → Agrees http files (trying m f w) (trying n g (files w))
  unfolding trying
  trying-Agrees m n f g w (same, kept) h =
      subst (λ v. Agrees http files (f (m w).0 (m w).1) (g (n (files w)).0 v)) kept
        (subst (λ r. Agrees http files (f (m w).0 (m w).1) (g r (files (m w).1))) same
          (h (m w).0 (m w).1))

module _ (repr : String → String) where
  read_kept : (path : String) (files : Files) → ((mock_client repr).read_file path files).1 ≡ files
  unfolding mock_client Mock.read_file pure raise
  read_kept path files = elim (Option-cases (find path files)) [
    | inl e ↦ rw e refl
    | inr (content, e) ↦ rw e refl
  ]

module _ {W : Type 0} (http : HttpClient W) (files : W → Files) (server : IsFileServer http files)
    (repr : String → String) (default_timeout : ℕ) where
  read-Agrees :
      (path : String) (w : W)
      → Agrees http files
          ((open_hands_client http repr default_timeout).read_file path w)
          ((mock_client repr).read_file path (files w))
  read-Agrees path w =
      let same = (open_hands-Agrees http files server repr default_timeout path "" "" "" w).0 in
      (
        ap (λ (r : Result String × W). r.0) same,
        ap (λ (r : Result String × W). files r.1) same ∙ sym (read_kept repr path (files w)),
      )

  pub file_checks-Agrees :
      (w : W)
      → Agrees http files
          (file_checks (open_hands_client http repr default_timeout) w)
          (file_checks (mock_client repr) (files w))
  unfolding file_checks
  file_checks-Agrees w =
      let agrees = open_hands-Agrees http files server repr default_timeout in
      let checked = λ (test : Bool). require-Agrees http files test in
      >>=-Agrees http files _ _ _ _ w (agrees check_path original "" "" w).1 λ done v.
        >>=-Agrees http files _ _ _ _ v (read-Agrees check_path v) λ created v.
          >>=-Agrees http files _ _ _ _ v (checked _ v) λ done v.
            >>=-Agrees http files _ _ _ _ v (agrees check_path "" "fileops" "fileops, edited" v).2
              λ done v. >>=-Agrees http files _ _ _ _ v (read-Agrees check_path v) λ edited v.
                >>=-Agrees http files _ _ _ _ v (checked _ v) λ done v.
                  trying-Agrees http files _ _ _ _ v (read-Agrees missing_path v)
                    (expect_missing-Agrees http files)
