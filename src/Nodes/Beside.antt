-- ===== src/Nodes/Beside.antt =====
-- The tools and the checks of syndicate/nodes.py beside the scripts of the stand-in for the model.
use syndicate.Prelude.{◌≡◌, refl, String, Bool, Option, none, some, List, [], ◌∷◌}
use syndicate.Exec.{
  Result, ok, raised, file_not_found, value_error, runtime_error, key_error, external,
}
use syndicate.Exec.Beside.{
  on_left, on_left-pure, on_left-raise, on_left-when, on_left-bind, on_left-trying,
}
use syndicate.Runtime.Base.{RuntimeClient}
use syndicate.Llm.{Block, text, tool_use, other, ToolInput}
use syndicate.Host.{Host}
use syndicate.StubLlm.{Stubs}
use syndicate.StubLlm.Shared.{sandboxed, stub_host}
use syndicate.Nodes.Tools.{required, handle, run_bash, run_editor, run_tool, catching}
use syndicate.Nodes.Loop.{run_tools}
use syndicate.Nodes.Executor.{run_checks, run_fast_checks, run_dummies}

module _ {W : Type 0} where
  required-on_left :
      (key : String) (value : Option String)
      → required key value ≡ on_left {S = Stubs} (required {W = W} key value)
  required-on_left key none = on_left-raise _
  required-on_left key (some value) = on_left-pure _

  handle-on_left : (r : Result (String × Bool)) → handle r ≡ on_left {S = Stubs} (handle {W = W} r)
  handle-on_left (raised (file_not_found e)) = on_left-pure _
  handle-on_left (raised (value_error e)) = on_left-pure _
  handle-on_left (raised (runtime_error e)) = on_left-raise _
  handle-on_left (raised (key_error e)) = on_left-raise _
  handle-on_left (raised (external e)) = on_left-raise _
  handle-on_left (ok reply) = on_left-pure _

module _ {W : Type 0} (host : Host W) (client : RuntimeClient W) (cwd : String) where
  run_bash-on_left :
      (input : ToolInput)
      → run_bash (stub_host host) (sandboxed client) cwd input
        ≡ on_left (run_bash host client cwd input)
  unfolding run_bash
  run_bash-on_left input = on_left-when _ _ _ (on_left-pure _) (
      on_left-bind _ _ (required-on_left _ _) λ command.
        on_left-bind _ _ refl λ result. on_left-when _ _ _ (on_left-pure _) (on_left-pure _))

  run_editor-on_left :
      (input : ToolInput)
      → run_editor (stub_host host) (sandboxed client) cwd input
        ≡ on_left (run_editor host client cwd input)
  unfolding run_editor
  run_editor-on_left input = on_left-bind _ _ (required-on_left _ _) λ command.
      on_left-bind _ _ (required-on_left _ _) λ path.
        on_left-when _ _ _ (on_left-bind _ _ refl λ content. on_left-pure _) (
          on_left-when _ _ _
            (on_left-bind _ _ (required-on_left _ _)
              λ file_text. on_left-bind _ _ refl λ written. on_left-pure _)
            (on_left-when _ _ _
              (on_left-bind _ _ (required-on_left _ _) λ old_str.
                on_left-bind _ _ (required-on_left _ _)
                  λ new_str. on_left-bind _ _ refl λ edited. on_left-pure _)
              (on_left-pure _)))

  pub run_tool-on_left :
      (name : String) (input : ToolInput)
      → run_tool (stub_host host) (sandboxed client) cwd name input
        ≡ on_left (run_tool host client cwd name input)
  unfolding run_tool catching
  run_tool-on_left name input =
      on_left-trying _ _
        (on_left-when _ _ _ (run_bash-on_left input)
          (on_left-when _ _ _ (run_editor-on_left input) (on_left-pure _)))
        handle-on_left

  pub run_tools-on_left :
      (blocks : List Block)
      → run_tools (stub_host host) (sandboxed client) cwd blocks
        ≡ on_left (run_tools host client cwd blocks)
  unfolding run_tools
  run_tools-on_left [] = on_left-pure _
  run_tools-on_left (text t ∷ blocks) = run_tools-on_left blocks
  run_tools-on_left (other ∷ blocks) = run_tools-on_left blocks
  run_tools-on_left (tool_use id name input ∷ blocks) =
      on_left-bind _ _ (run_tool-on_left name input)
        λ outcome. on_left-bind _ _ (run_tools-on_left blocks) λ rest. on_left-pure _

module _ {W : Type 0} (client : RuntimeClient W) (cwd : String) where
  run_checks-on_left :
      (actions : List String)
      → run_checks (sandboxed client) cwd actions ≡ on_left (run_checks client cwd actions)
  unfolding run_checks
  run_checks-on_left [] = on_left-pure _
  run_checks-on_left (action ∷ actions) =
      on_left-bind _ _ refl
        λ result. on_left-when _ _ _ (run_checks-on_left actions) (on_left-pure _)

  pub run_fast_checks-on_left :
      run_fast_checks (sandboxed client) cwd ≡ on_left (run_fast_checks client cwd)
  unfolding run_fast_checks
  run_fast_checks-on_left = run_checks-on_left _

module _ {W : Type 0} (host : Host W) (client : RuntimeClient W) where
  pub run_dummies-on_left :
      (actions log : List String)
      → run_dummies (stub_host host) (sandboxed client) log actions
        ≡ on_left (run_dummies host client log actions)
  unfolding run_dummies
  run_dummies-on_left [] log = on_left-pure _
  run_dummies-on_left (action ∷ actions) log =
      on_left-bind _ _ refl λ result. run_dummies-on_left actions _
