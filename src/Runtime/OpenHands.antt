-- ===== src/Runtime/OpenHands.antt =====
-- syndicate/runtime/openhands.py: a sandbox behind the HTTP interface of an agent server. `httpx` is
-- a parameter.
use Prim.Native.Char.{code}
use syndicate.Prelude.{
  ℕ, ℤ, ◌+◌, ◌/◌, String, ◌<>◌, false, Option, none, some, ◌==◌, if◌then◌else◌, or_text,
}
use syndicate.Exec.{
  Exec, Exception, file_not_found, runtime_error, pure, raise, when◌perform◌otherwise◌, ◌>>=◌, ◌>>◌,
}
use syndicate.Runtime.Base.{ActionResult, RuntimeClient}
use syndicate.Runtime.Replace.{str_replace}
use syndicate.Runtime.Mock.{returned}

-- The keys of a command's reply, and its `repr`.
pub record BashOutput : Type 0 where
  pub exit_code : Option ℤ
  pub stdout : Option String
  pub stderr : Option String
  pub shown : String

pub record CommandRequest : Type 0 where
  pub command : String
  pub cwd : Option String
  pub timeout : Option ℕ

pub record HttpResponse : Type 0 where
  pub status_code : ℕ
  pub body : String

-- `httpx.AsyncClient`, with timeouts in milliseconds. `failure` is the exception that
-- `raise_for_status` raises, and `json` reads the reply to a command.
pub record HttpClient (W : Type 0) : Type 0 where
  pub post_json : String → CommandRequest → ℕ → Exec W HttpResponse
  pub get : String → Exec W HttpResponse
  pub post_file : String → String → String → Exec W HttpResponse
  pub failure : HttpResponse → Option Exception
  pub json : HttpResponse → Exec W BashOutput

-- `path.rsplit('/', 1)[-1] or 'file'`
pub after_slash : String → Option String
after_slash String.[] = none
after_slash (String.◌∷◌ c s) =
    let rest = after_slash s in
    elim rest [ some t ↦ some t | none ↦ if code c == 47 then some s else none ]

pub filename_of : String → String
unfolding after_slash
filename_of path = or_text (some (elim (after_slash path) [ none ↦ path | some t ↦ t ])) "file"

module _ {W : Type 0} (http : HttpClient W) (repr : String → String) (default_timeout : ℕ) where
  abbrev pub raised_or : Option Exception → Exec W (Unit {0})
  raised_or none = pure tt
  raised_or (some x) = raise x

  abbrev pub raise_for_status : HttpResponse → Exec W (Unit {0})
  raise_for_status response = raised_or (http.failure response)

  -- `data.get('stdout') or ''`
  abbrev pub result_of : String → BashOutput → Exec W ActionResult
  result_of action output = elim output.exit_code [
    | none ↦ raise (
        runtime_error (
          "OpenHands runtime returned no exit_code for action "
          <> repr action
          <> ": "
          <> output.shown))
    | some exit_code ↦ pure (record {
      exit_code = exit_code;
      output = or_text output.stdout "" <> or_text output.stderr "";
    })
  ]

  -- `int(timeout)` is in seconds, and the call has half a minute more.
  unfoldable pub run_action : String → Option String → Option ℕ → Exec W ActionResult
  run_action action cwd timeout = do
    response ←
        http.post_json "/api/bash/execute_bash_command"
          (record {
            command = action;
            cwd = cwd;
            timeout = elim timeout [ none ↦ none | some t ↦ some (t / 1000) ];
          })
          (elim timeout [ none ↦ default_timeout | some t ↦ t + 30000 ])
    raise_for_status response
    output ← http.json response
    result_of action output

  unfoldable pub read_file : String → Exec W String
  read_file path = do
    response ← http.get ("/api/file/download/" <> path)
    when response.status_code == 404
        perform raise (file_not_found path)
        otherwise (do raise_for_status response; pure response.body)

  unfoldable pub write_file : String → String → Exec W (Unit {0})
  unfolding filename_of
  write_file path content = do
    response ← http.post_file ("/api/file/upload/" <> path) (filename_of path) content
    raise_for_status response

  unfoldable pub edit_file : String → String → String → Exec W (Unit {0})
  unfolding read_file write_file
  edit_file path old_string new_string = do
    content ← read_file path
    edited ← returned (str_replace repr content old_string new_string path)
    write_file path edited

  unfoldable pub open_hands_client : RuntimeClient W
  unfolding run_action read_file write_file edit_file
  open_hands_client = record {
    is_mock = false;
    run_action = run_action;
    read_file = read_file;
    write_file = write_file;
    edit_file = edit_file;
  }
