-- ===== src/Ctl/Commands/Sandboxes.antt =====
-- cmd/msbctl/commands.go: the commands on sandboxes.
use msb_manager.Prelude.{
  Text, codes, Option, none, some, List, [], ◌∷◌, ◌++◌, Result, ok, err, is_empty, text_eq,
  if◌then◌else◌,
}
use Prim.Native.String.{String}
use msb_manager.Ctl.Interpolate.{interpolate, make_lookup, InterpolateError}
use msb_manager.Ctl.Flags.{text, pairs, FlagSet}
use msb_manager.Ctl.Client.{get, post, delete, no_body, bytes, exec_json}
use msb_manager.Ctl.Client.Paths.{sandbox_path, encode_query}
use msb_manager.Ctl.Render.{ExecOutput}
use msb_manager.Ctl.Commands.{
  Env, Ran, Command, error_note, remote, of_interpolation, failed, printed, with_flags, with_name,
  text_flag, pairs_flag, call, do_read, do_action, read_spec, with_spec,
}

abbrev pub output_flag : FlagSet
output_flag = (codes "o", text (codes "table")) ∷ []

abbrev logs_flags : FlagSet
logs_flags = (codes "tail", text []) ∷ (codes "since", text []) ∷ (codes "source", text []) ∷ []

abbrev create_flags : FlagSet
create_flags = (codes "f", text []) ∷ (codes "set", pairs []) ∷ []

-- a parameter of the query, where the flag has a value
abbrev given : String → FlagSet → List (Text × Text) → List (Text × Text)
given name fs more =
    let v = text_flag name fs in if is_empty v then more else (codes name, v) ∷ more

-- q in cmdLogs, in the order of Encode
abbrev logs_query : FlagSet → List (Text × Text)
logs_query fs = given "since" fs (given "source" fs (given "tail" fs []))

abbrev with_query : Text → List (Text × Text) → Text
with_query path [] = path
with_query path (p ∷ ps) = path ++ codes "?" ++ encode_query (p ∷ ps)

-- the arguments before the first "--", and those after it
unfoldable pub split_at_dashes : List Text → Option (List Text × List Text)
split_at_dashes [] = none
split_at_dashes (a ∷ args) =
    let rest = split_at_dashes args in
    if text_eq a (codes "--")
    then some ([], args)
    else (elim rest [ none ↦ none | some (head, tail) ↦ some (a ∷ head, tail) ])

-- the checks of cmdExec: the name and the command
abbrev pub exec_checked : Option (List Text × List Text) → Option (Text × List Text)
exec_checked (some (n ∷ [], c ∷ command)) = if is_empty n then none else some (n, c ∷ command)
exec_checked _ = none

module _ {W F : Type 0} (env : Env W F) where
  -- cmdList
  unfoldable pub cmd_list : Command W
  unfolding do_read
  cmd_list args w =
      with_flags output_flag args
        (λ fs pos.
          do_read env (codes "/sandboxes") (text_flag "o" fs)
            (codes "name" ∷ codes "status" ∷ codes "image" ∷ codes "created_at" ∷ []))
        w

  -- cmdInspect
  unfoldable pub cmd_inspect : Command W
  cmd_inspect args w =
      with_flags output_flag args
        (λ fs pos.
          with_name (codes "sandbox") pos
            (λ name. do_read env (sandbox_path name []) (text_flag "o" fs) []))
        w

  -- cmdMetrics
  unfoldable pub cmd_metrics : Command W
  cmd_metrics args w =
      with_flags output_flag args
        (λ fs pos.
          with_name (codes "sandbox") pos
            (λ name. do_read env (sandbox_path name (codes "metrics")) (text_flag "o" fs) []))
        w

  -- cmdLogs
  unfoldable pub cmd_logs : Command W
  cmd_logs args w =
      with_flags logs_flags args
        (λ fs pos. with_name (codes "sandbox") pos (λ name.
          call env get (with_query (sandbox_path name (codes "logs")) (logs_query fs)) no_body []
            (λ r. printed 0 r.body)))
        w

  -- sandboxAction
  unfoldable pub sandbox_action : Text → Text → Command W
  sandbox_action verb confirm args w =
      with_flags [] args
        (λ fs pos. with_name (codes "sandbox") pos (λ name.
          do_action env post (sandbox_path name verb) no_body [] (confirm ++ codes " " ++ name)))
        w

  -- cmdStart
  unfoldable pub cmd_start : Command W
  unfolding sandbox_action
  cmd_start args w = sandbox_action (codes "start") (codes "started") args w

  -- cmdStop
  unfoldable pub cmd_stop : Command W
  unfolding sandbox_action
  cmd_stop args w = sandbox_action (codes "stop") (codes "stopped") args w

  -- cmdRm
  unfoldable pub cmd_rm : Command W
  cmd_rm args w =
      with_flags [] args
        (λ fs pos. with_name (codes "sandbox") pos (λ name.
          do_action env delete (sandbox_path name []) no_body [] (codes "removed " ++ name)))
        w

  -- the streams and the exit code of the command that ran
  abbrev pub exec_ran : Result Text ExecOutput → W → Ran W
  exec_ran (err m) w = failed (error_note (codes "unexpected exec response: " ++ m)) w
  exec_ran (ok o) w = record {
    code = o.exit_code;
    out = o.stdout;
    notes = remote o.stderr ∷ [];
    world = w;
  }

  abbrev pub exec_on : Option (Text × List Text) → W → Ran W
  exec_on none w = failed (error_note (codes "usage: exec <name> -- <cmd> [args...]")) w
  exec_on (some (name, command)) w =
      call env post (sandbox_path name (codes "exec")) (exec_json command)
        (codes "application/json") (λ r. exec_ran (env.codec.exec_output r.body)) w

  -- cmdExec
  unfoldable pub cmd_exec : Command W
  unfolding split_at_dashes
  cmd_exec args w = exec_on (exec_checked (split_at_dashes args)) w

  abbrev pub create_from : Result InterpolateError Text → W → Ran W
  create_from (err e) w = failed (of_interpolation e) w
  create_from (ok body) w =
      do_action env post (codes "/sandboxes") (bytes body) (codes "application/yaml")
        (codes "created") w

  -- cmdCreate with the spec as it was read
  unfoldable pub create_spec : FlagSet → Text → W → Ran W
  unfolding make_lookup
  create_spec fs raw w =
      create_from
        (interpolate env.read_yaml env.write_yaml raw
          (make_lookup (pairs_flag "set" fs) env.getenv))
        w

  abbrev pub create_given : FlagSet → List Text → W → Ran W
  create_given fs pos w =
      if is_empty (text_flag "f" fs)
      then failed (error_note (codes "create requires -f <file|-> (a spec file or - for stdin)")) w
      else with_spec env (read_spec env (text_flag "f" fs)) (create_spec fs) w

  -- cmdCreate
  unfoldable pub cmd_create : Command W
  unfolding create_spec
  cmd_create args w = with_flags create_flags args create_given w
