-- ===== src/Scripts/FileOps/Passed.antt =====
-- What scripts/verify_runtime_fileops.py finds over a server that keeps files.
use mathlib.Core.Logic.{inl, inr}
use syndicate.Prelude.{
  ℕ, ◌≡◌, ◌⊎◌, ◌∙◌, refl, sym, ap, subst, String, Option-cases, true, false, Option, none, some,
  str_eq,
}
use syndicate.Prelude.Maps.{put, find, find-put, find-put-other}
use syndicate.Exec.{
  Exec, Result, ok, raised, continue, ◌>>=◌, trying, pure, raise, when◌perform◌otherwise◌,
}
use syndicate.Runtime.Mock
use syndicate.Runtime.Mock.{Files, mock_client}
use syndicate.Runtime.Replace.{str_replace, without}
use syndicate.Runtime.OpenHands.{HttpClient, open_hands_client}
use syndicate.Runtime.Agrees.{IsFileServer}
use syndicate.Runtime.Factory.{
  Parts, get_runtime_client, runtime_base_url, at_url, with_timeout, or_default,
}
use syndicate.Scripts.Checks.{assertion_error, require}
use syndicate.Scripts.FileOps.{
  check_path, missing_path, original, replaced, without_mock, finally, obtained, expect_missing,
  file_checks, file_ops_main,
}
use syndicate.Scripts.FileOps.Agreement.{file_checks-Agrees}

-- The last check over the dictionary.
last_check : Option String → Result (Unit {0})
last_check none = ok tt
last_check (some content) = raised assertion_error

>>=-ok :
    {W A B : Type 0} (m : Exec W A) (f : A → Exec W B) (w : W) {a : A} {v : W}
    → m w ≡ (ok a, v)
    → (m >>= f) w ≡ f a v
unfolding ◌>>=◌
>>=-ok m f w e = ap (λ (r : Result _ × _). continue r.0 f r.1) e

module _ (repr : String → String) where
  read_mock :
      (path content : String) (files : Files)
      → find path files ≡ some content
      → (mock_client repr).read_file path files ≡ (ok content, files)
  unfolding mock_client Mock.read_file pure
  read_mock path content files e = rw e refl

  str_replace-original :
      str_replace repr original "fileops" "fileops, edited" check_path ≡ ok replaced
  unfolding str_replace without
  str_replace-original = refl

  edit_mock :
      (files : Files)
      → find check_path files ≡ some original
      → (mock_client repr).edit_file check_path "fileops" "fileops, edited" files
        ≡ (ok tt, put check_path replaced files)
  unfolding mock_client Mock.edit_file Mock.read_file Mock.write_file ◌>>=◌ pure
  edit_mock files e = rw (e, str_replace-original) refl

  require_passed : {W : Type 0} (w : W) → require true w ≡ (ok tt, w)
  unfolding require when◌perform◌otherwise◌ pure
  require_passed w = refl

  write_mock :
      (files : Files)
      → (mock_client repr).write_file check_path original files
        ≡ (ok tt, put check_path original files)
  unfolding mock_client Mock.write_file
  write_mock files = refl

  missing_mock :
      (files : Files)
      → trying ((mock_client repr).read_file missing_path) expect_missing files
        ≡ (last_check (find missing_path files), files)
  unfolding mock_client Mock.read_file trying pure raise last_check
  missing_mock files = elim (Option-cases (find missing_path files)) [
    | inl e ↦ rw e refl
    | inr (content, e) ↦ rw e refl
  ]

  -- The checks over the dictionary: the file is left with the second text.
  mock-file_checks :
      (files : Files)
      → file_checks (mock_client repr) files ≡ (
        last_check (find missing_path (put check_path replaced (put check_path original files))),
        put check_path replaced (put check_path original files),
      )
  unfolding file_checks
  mock-file_checks files =
      let first = put check_path original files in
      let second = put check_path replaced first in
      >>=-ok _ _ files (write_mock files)
      ∙ >>=-ok _ _ first (read_mock check_path original first (find-put check_path original files))
      ∙ >>=-ok _ _ first (require_passed first)
      ∙ >>=-ok _ _ first (edit_mock first (find-put check_path original files))
      ∙ >>=-ok _ _ second
          (read_mock check_path replaced second (find-put check_path replaced first))
      ∙ >>=-ok _ _ second (require_passed second)
      ∙ missing_mock second

-- The variables with which the factory gives a client, and the servers that it connects to keep files.
pub record ReachesFiles {W : Type 0} (parts : Parts W) (files : W → Files) : Type 0 where
  pub base : String
  pub address : runtime_base_url parts ≡ ok base
  pub timeout : ℕ
  pub numeric :
      parts.float (or_default (parts.environ "SYNDICATE_RUNTIME_TIMEOUT_SECONDS") "300")
      ≡ ok timeout
  pub repr : String → String
  pub connect : String → Option String → HttpClient W
  pub server : (url : String) (key : Option String) → IsFileServer (connect url key) files
  pub adapter :
      (url : String) (key : Option String) (t : ℕ)
      → parts.open_hands url key t ≡ ok (open_hands_client (connect url key) repr t)

module _ {W : Type 0} (parts : Parts W) (files : W → Files)
    (reaches : ReachesFiles parts files) where
  chosen :
      (base : String) × (key : Option String) × (get_runtime_client (without_mock parts)
        ≡ ok (open_hands_client (reaches.connect base key) reaches.repr reaches.timeout))
  unfolding get_runtime_client runtime_base_url
  chosen = (
    reaches.base,
    parts.environ "SYNDICATE_RUNTIME_SESSION_API_KEY",
    ap (at_url (without_mock parts)) reaches.address
        ∙ ap (with_timeout (without_mock parts) reaches.base) reaches.numeric
        ∙ reaches.adapter _ _ _,
  )

module _ (files : Files) where
  abbrev final : Files
  final = put check_path replaced (put check_path original files)

  final-other :
      (other : String) → str_eq check_path other ≡ false → find other final ≡ find other files
  final-other other o =
      find-put-other other check_path replaced (put check_path original files) o
      ∙ find-put-other other check_path original files o

-- The checks pass, if the file that should be missing is; and only the one file has changed.
pub record IsChecked (before : Files) (r : Result (Unit {0})) (after : Files) : Type 0 where
  pub verdict :
      ((find missing_path before ≡ none) × (r ≡ ok tt))
      ⊎ ((content : String) × (find missing_path before ≡ some content)
          × (r ≡ raised assertion_error))
  pub written : find check_path after ≡ some replaced
  pub others :
      (other : String) → str_eq check_path other ≡ false → find other after ≡ find other before

last_check-IsChecked :
    (files : Files) → IsChecked files (last_check (find missing_path (final files))) (final files)
unfolding last_check
last_check-IsChecked files = record {
  verdict = elim (Option-cases (find missing_path files)) [
    | inl e ↦ inl (e, ap last_check (final-other files missing_path refl ∙ e))
    | inr (content, e) ↦ inr (content, e, ap last_check (final-other files missing_path refl ∙ e))
  ];
  written = find-put check_path replaced (put check_path original files);
  others = final-other files;
}

module _ {W : Type 0} (parts : Parts W) (files : W → Files) (reaches : ReachesFiles parts files)
    (aclose : Exec W (Unit {0})) where
  closed-IsChecked :
      (m : Exec W (Unit {0})) (w : W)
      → ((v : W) → ((aclose v).0 ≡ ok tt) × (files (aclose v).1 ≡ files v))
      → IsChecked (files w) (m w).0 (files (m w).1)
      → IsChecked (files w) (finally m aclose w).0 (files (finally m aclose w).1)
  unfolding finally trying ◌>>=◌
  closed-IsChecked m w closes c =
      let (fine, kept) = closes (m w).1 in
      subst
        (λ r.
          IsChecked (files w) (continue r (λ done v. ((m w).0, v)) (aclose (m w).1).1).0
            (files (continue r (λ done v. ((m w).0, v)) (aclose (m w).1).1).1))
        (sym fine) (subst (IsChecked (files w) (m w).0) (sym kept) c)

  -- Whatever the environment says of the mock, if its other variables give a client, and the servers
  -- keep files, and closing a client changes none, then the script passes exactly if the file that
  -- should be missing is, and else fails with an `AssertionError`; the file that it writes is left with
  -- the second text, and no other file changes.
  pub file_ops_main-IsChecked :
      (w : W)
      → ((v : W) → ((aclose v).0 ≡ ok tt) × (files (aclose v).1 ≡ files v))
      → IsChecked
          (files w)
          (file_ops_main parts aclose w).0
          (files (file_ops_main parts aclose w).1)
  unfolding file_ops_main pure
  file_ops_main-IsChecked w closes =
      let (base, key, got) = chosen parts files reaches in
      let client = open_hands_client (reaches.connect base key) reaches.repr reaches.timeout in
      let (same, kept) =
        file_checks-Agrees (reaches.connect base key) files (reaches.server base key) reaches.repr
          reaches.timeout w in
      let checked = mock-file_checks reaches.repr (files w) in
      let done : IsChecked (files w) (file_checks client w).0 (files (file_checks client w).1) =
        subst (λ r. IsChecked (files w) r (files (file_checks client w).1))
          (sym (same ∙ ap (λ (q : Result (Unit {0}) × Files). q.0) checked))
          (subst (IsChecked (files w) (last_check (find missing_path (final (files w)))))
            (sym (kept ∙ ap (λ (q : Result (Unit {0}) × Files). q.1) checked))
            (last_check-IsChecked (files w))) in
      subst (λ (q : Result (Unit {0}) × W). IsChecked (files w) q.0 (files q.1))
        (sym (>>=-ok _ _ w (ap (λ r. obtained r w) got)))
        (closed-IsChecked (file_checks client) w closes done)
