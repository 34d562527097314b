-- ===== src/Tests/Sandbox.antt =====
-- The theorems about the sandbox adapters, over a server that keeps its files in a dictionary.
use syndicate.Prelude.{
  str_eq, if◌then◌else◌, ◌≡◌, ◌∙◌, refl, ap, String, ◌<>◌, Option, none, some, [], ◌∷◌, ◌⊎◌, pos,
}
use syndicate.Prelude.Maps.{put, find}
use syndicate.Exec.{ok, pure, trying, ◌>>=◌}
use syndicate.Scripts.Checks.{require}
use syndicate.Server.Attempts.{contains}
use syndicate.Runtime.Replace.{without, without-append}
use syndicate.Runtime.Mock.{Files, mock_client, IsEdited, IsRefused, edit_file-outcome}
use syndicate.Runtime.OpenHands.{HttpResponse, HttpClient, open_hands_client}
use syndicate.Runtime.Agrees.{IsFileServer, Agrees, open_hands-Agrees}
use syndicate.Runtime.Factory.{Parts, runtime_base_url, rstrip_slash}
use syndicate.Scripts.FileOps.{file_ops_main, finally, echo_checks}
use syndicate.Scripts.FileOps.Passed.{ReachesFiles, IsChecked, file_ops_main-IsChecked}

abbrev quoted : String → String
quoted s = "'" <> s <> "'"

abbrev one_file : Files
one_file = ("a.py", "x = 1\ny = 1\n") ∷ []

edit_file-outcome_example :
    IsEdited quoted "a.py" "x = 1" "x = 2" one_file
      ((mock_client quoted).edit_file "a.py" "x = 1" "x = 2" one_file)
    ⊎ IsRefused quoted "a.py" "x = 1" "x = 2" one_file
        ((mock_client quoted).edit_file "a.py" "x = 1" "x = 2" one_file)
edit_file-outcome_example = edit_file-outcome quoted "a.py" "x = 1" "x = 2" one_file

abbrev downloaded : Option String → HttpResponse
downloaded none = record { status_code = 404; body = "" }
downloaded (some content) = record { status_code = 200; body = content }

abbrev file_server : HttpClient Files
file_server = record {
  post_json = λ url request timeout. pure (record { status_code = 200; body = "" });
  get = λ url files. (ok (downloaded (find (without "/api/file/download/" url) files)), files);
  post_file = λ url name content files. (
    ok (record { status_code = 200; body = "" }),
    put (without "/api/file/upload/" url) content files,
  );
  failure = λ response. none;
  json = λ response.
      pure (record { exit_code = some (pos 0); stdout = none; stderr = none; shown = "{}" });
}

file_server-IsFileServer : IsFileServer file_server (λ (files : Files). files)
file_server-IsFileServer = record {
  missing = λ path files e. (
    downloaded none,
    ap (λ (o : Option String). (ok (downloaded o), files)) (got path files ∙ e),
    refl,
  );
  present = λ path content files e. (
    downloaded (some content),
    ap (λ (o : Option String). (ok (downloaded o), files)) (got path files ∙ e),
    refl,
    refl,
    refl,
  );
  upload = λ path name content files. (
    record { status_code = 200; body = "" },
    put path content files,
    rw (without-append "/api/file/upload/" path) refl,
    refl,
    refl,
  );
}
  where
    got :
        (path : String) (files : Files)
        → find (without "/api/file/download/" ("/api/file/download/" <> path)) files
          ≡ find path files
    got path files = ap (λ p. find p files) (without-append "/api/file/download/" path)

open_hands-Agrees_example :
    ((open_hands_client file_server quoted 300000).read_file "a.py" one_file
      ≡ (((mock_client quoted).read_file "a.py" one_file).0, one_file))
    × Agrees file_server
        (λ (files : Files). files)
        ((open_hands_client file_server quoted 300000).write_file "a.py" "pass" one_file)
        ((mock_client quoted).write_file "a.py" "pass" one_file)
    × Agrees file_server
        (λ (files : Files). files)
        ((open_hands_client file_server quoted 300000).edit_file "a.py" "x" "z" one_file)
        ((mock_client quoted).edit_file "a.py" "x" "z" one_file)
open_hands-Agrees_example =
    open_hands-Agrees file_server (λ (files : Files). files) file_server-IsFileServer quoted 300000
      "a.py" "pass" "x" "z" one_file

-- The environment of a script: the mock is asked for, and there is a server.
abbrev variables : String → Option String
variables key =
    if str_eq key "SYNDICATE_MOCK_CLIENT"
    then some "1"
    else if str_eq key "SYNDICATE_RUNTIME_URL"
    then some "http://localhost:8000/"
    else none

abbrev serving : Parts Files
serving = record {
  environ = variables;
  port = λ url. ok (some 8000);
  float = λ text. ok 300000;
  mock = mock_client quoted;
  open_hands = λ url key timeout. ok (open_hands_client file_server quoted timeout);
}

serving-ReachesFiles : ReachesFiles serving (λ (files : Files). files)
unfolding runtime_base_url rstrip_slash
serving-ReachesFiles = record {
  base = "http://localhost:8000";
  address = refl;
  timeout = 300000;
  numeric = refl;
  repr = quoted;
  connect = λ base key. file_server;
  server = λ base key. file_server-IsFileServer;
  adapter = λ base key timeout. refl;
}

closes :
    (files : Files)
    → ((pure {W = Files} (tt {0}) files).0 ≡ ok tt) × ((pure {W = Files} (tt {0}) files).1 ≡ files)
unfolding pure
closes files = (refl, refl)

file_ops_main-IsChecked_example :
    IsChecked one_file
      (file_ops_main serving (pure tt) one_file).0
      (file_ops_main serving (pure tt) one_file).1
file_ops_main-IsChecked_example =
    file_ops_main-IsChecked serving (λ (files : Files). files) serving-ReachesFiles (pure tt)
      one_file closes

echo_checks-mock : (finally (echo_checks (mock_client quoted)) (pure tt) one_file).0 ≡ ok tt
unfolding finally echo_checks trying ◌>>=◌ mock_client require contains
echo_checks-mock = refl
