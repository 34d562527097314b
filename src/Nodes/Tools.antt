-- ===== src/Nodes/Tools.antt =====
-- `_run_tool` of syndicate/nodes.py
use syndicate.Prelude.{
  String, ◌<>◌, Bool, true, false, not, Option, none, some, str_int, is_zero, truthy_flag, str_eq,
}
use syndicate.Exec.{
  Exec, Result, ok, raised, file_not_found, value_error, runtime_error, key_error, external, pure,
  raise, when◌perform◌otherwise◌, ◌>>=◌, ◌>>◌, trying,
}
use syndicate.Runtime.Base.{RuntimeClient}
use syndicate.Llm.{ToolInput}
use syndicate.Host.{Host}

module _ {W : Type 0} where
  -- `tool_input[key]`
  abbrev pub required : String → Option String → Exec W String
  required key none = raise (key_error key)
  required key (some value) = pure value

  -- `except (FileNotFoundError, ValueError) as exc: return str(exc), True`
  abbrev pub handle : Result (String × Bool) → Exec W (String × Bool)
  handle (raised (file_not_found text)) = pure (text, true)
  handle (raised (value_error text)) = pure (text, true)
  handle (raised (runtime_error text)) = raise (runtime_error text)
  handle (raised (key_error text)) = raise (key_error text)
  handle (raised (external text)) = raise (external text)
  handle (ok reply) = pure reply

  unfoldable pub catching : Exec W (String × Bool) → Exec W (String × Bool)
  catching m = trying m handle

module _ {W : Type 0} (host : Host W) (client : RuntimeClient W) (cwd : String) where
  unfoldable pub run_bash : ToolInput → Exec W (String × Bool)
  run_bash input =
      when truthy_flag input.restart perform pure ("bash session restarted", false) otherwise do
        command ← required "command" input.command
        result ← client.run_action command (some cwd) none
        when not (is_zero result.exit_code)
            perform pure ("exit_code=" <> str_int result.exit_code <> "\n" <> result.output, true)
            otherwise pure (result.output, false)

  unfoldable pub run_editor : ToolInput → Exec W (String × Bool)
  run_editor input = do
    command ← required "command" input.command
    path ← required "path" input.path
    when str_eq command "view"
        perform (do content ← client.read_file path; pure (content, false))
        otherwise when str_eq command "create"
        perform (do
          file_text ← required "file_text" input.file_text
          client.write_file path file_text
          pure ("created " <> path, false))
        otherwise when str_eq command "str_replace"
        perform (do
          old_str ← required "old_str" input.old_str
          new_str ← required "new_str" input.new_str
          client.edit_file path old_str new_str
          pure ("edited " <> path, false))
        otherwise pure ("unsupported command " <> host.repr command, true)

  unfoldable pub run_tool : String → ToolInput → Exec W (String × Bool)
  run_tool name input = catching (
      when str_eq name "bash"
      perform run_bash input
      otherwise when str_eq name "str_replace_based_edit_tool"
      perform run_editor input
      otherwise pure ("unknown tool " <> host.repr name, true))
