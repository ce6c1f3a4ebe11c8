-- ===== src/Server/Exec.antt =====
-- internal/server/exec.go: running a command in a sandbox.
use msb_manager.Prelude.{
  Text, codes, Option, List, [], ◌∷◌, ◌++◌, if◌then◌else◌, Result, ok, err, is_empty,
}
use msb_manager.Api.{new_exec_result}
use msb_manager.Server.{
  MsbClient, Response, State, text, of_exec, ExecError, no_command, empty_command, exec_body,
  bad_request, answer, read_body, check_path_name, or_respond,
}

-- execRequest.validate
unfoldable pub validate_command : List Text → Result ExecError (Unit {0})
validate_command [] = err no_command
validate_command (c ∷ args) = if is_empty c then err empty_command else ok tt

module _ {W F : Type 0} (client : MsbClient W F) where
  unfoldable pub run_command : Text → List Text → State W → Response F × State W
  run_command name argv st =
      let (r, w) = client.exec name argv st.world in
      answer (codes "exec in sandbox") r
        (λ out. record { status = 200; body = exec_body (new_exec_result out) })
        (record st { world = w })

  unfoldable pub command_read :
      (Text → Result Text (List Text)) → Text → Text → State W → Response F × State W
  unfolding run_command validate_command
  command_read decode name body st = elim (decode body) [
    | err m ↦ (bad_request (text (codes "parse exec request: " ++ m)), st)
    | ok argv ↦ elim (validate_command argv) [
      | err e ↦ (bad_request (of_exec e), st)
      | ok _ ↦ run_command name argv st
    ]
  ]

  -- handleExecSandbox
  unfoldable pub handle_exec_sandbox :
      (Text → Result Text (List Text)) → Text → Option Text → State W → Response F × State W
  unfolding check_path_name read_body command_read
  handle_exec_sandbox decode name body st = or_respond (check_path_name name) st (λ _ st.
      or_respond (read_body (codes "exec request too large") body) st (command_read decode name))
