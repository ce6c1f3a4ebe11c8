-- ===== src/Msb/Client.antt =====
-- internal/msb/client.go: the client. Everything outside the process (the msb binary, its
-- supervisor, the file system) is a state `W`; running a child changes it and gives what the child
-- wrote and how it ended. The mutex of the mutating methods makes them one call after another, which
-- is the order in which they are composed here.
pub mod Outcomes
use msb_manager.Prelude.{
  ℕ, Text, codes, Bool, true, false, ◌&&◌, ◌||◌, Option, none, some, List, [], ◌∷◌, ◌++◌, ℤ, pos,
  negsuc, is_pos, Map, if◌then◌else◌, Result, ok, err,
}
use msb_manager.Msb.Errors.{
  Error, install_keys, timed_out, timeout, output_too_large, is_error, exit_code?, wrap_run_err,
  classify_error_anchored,
}
use msb_manager.Msb.Types.{
  Sandbox, SandboxDetail, Snapshot, Metrics, Volume, ExecResult, CreateOpts, LogsOpts,
}
use msb_manager.Msb.Runner.{Child, Outcome, run_child}
use msb_manager.Msb.Redact.{redact_secrets}
use msb_manager.Msb.Args.{build_create_args, logs_args, snapshot_create_args, ssh_key_script_name}
use msb_manager.Msb.Parse.{
  Json, parse_list, parse_inspect, parse_metrics, parse_snapshot_list, parse_volume_list,
}

-- the request's context, or the one of context.WithoutCancel
pub data Context : Type 0 where
  request detached : Context

-- Client with the ExecRunner's field; timeouts are in nanoseconds
pub record Config : Type 0 where
  pub bin : Text
  pub timeout : ℤ
  pub max_capture_bytes : ℤ

abbrev pub default_cmd_timeout : ℤ
default_cmd_timeout = pos 60000000000

-- NewClientWithTimeout
unfoldable pub new_client_with_timeout : Text → ℤ → ℤ → Config
new_client_with_timeout bin max_capture t = record {
  bin = bin;
  timeout = if is_pos t then t else default_cmd_timeout;
  max_capture_bytes = max_capture;
}

-- exec.CommandContext with the timeout, in a context: the parameter that stands for the machine
abbrev pub Spawn : Type 0 → Type 0
Spawn W = Context → ℤ → Text → List Text → W → Child × W

abbrev with_timeout : Bool → Option Error → Option Error
with_timeout true (some e) = some (timed_out e)
with_timeout true none = none
with_timeout false failure = failure

-- what Client.run makes of the runner's result
unfoldable pub run_outcome : Outcome → Outcome
run_outcome o = record o { failure = with_timeout o.deadline o.failure }

-- execOutcome
abbrev after_exit : Outcome → Error → Option ℤ → Result Error ExecResult
after_exit o e none = err e
after_exit o e (some n) =
    if is_pos n then ok (record { stdout = o.stdout; stderr = o.stderr; exit_code = n }) else err e

abbrev after_classify : Outcome → Error → Option Error → Result Error ExecResult
after_classify o e (some c) = err c
after_classify o e none = after_exit o e (exit_code? e)

abbrev exec_failed : Outcome → Option Error → Result Error ExecResult
exec_failed o none = ok (record { stdout = o.stdout; stderr = o.stderr; exit_code = pos 0 })
exec_failed o (some e) =
    if is_error e timeout || is_error e output_too_large
    then err e
    else after_classify o e (classify_error_anchored o.stderr)

unfoldable pub exec_outcome : Outcome → Result Error ExecResult
exec_outcome o = exec_failed o o.failure

-- the error of a method, or what it makes of the output
abbrev pub read_output {ℓ} :
    {A : Type ℓ} → Outcome → Option Error → (Text → Result Error A) → Result Error A
read_output o (some e) parse = err e
read_output o none parse = parse o.stdout

abbrev pub as_result : Option Error → Result Error (Unit {0})
as_result (some e) = err e
as_result none = ok tt

module _ {W F : Type 0} (spawn : Spawn W) (json : Json F) (c : Config) where
  -- Client.run over ExecRunner.Run
  unfoldable pub run : Context → List Text → W → Outcome × W
  unfolding run_outcome
  run ctx args w =
      let (child, w') = spawn ctx c.timeout c.bin args w in
      (run_outcome (run_child c.max_capture_bytes child), w')

  -- a method that reads msb's output
  unfoldable pub query {ℓ} :
      {A : Type ℓ} → List Text → (Text → Result Error A) → W → Result Error A × W
  query args parse w =
      let (o, w') = run request args w in
      (read_output o (wrap_run_err o.stderr o.failure) parse, w')

  -- a method that only succeeds or fails
  unfoldable pub command : List Text → W → Result Error (Unit {0}) × W
  command args w =
      let (o, w') = run request args w in (as_result (wrap_run_err o.stderr o.failure), w')

  unfoldable pub list : W → Result Error (List Sandbox) × W
  unfolding query
  list = query (codes "ls" ∷ codes "--format" ∷ codes "json" ∷ []) (parse_list json)

  unfoldable pub inspect : Text → W → Result Error SandboxDetail × W
  unfolding query
  inspect name =
      query (codes "inspect" ∷ codes "--format" ∷ codes "json" ∷ codes "--" ∷ name ∷ [])
        (parse_inspect json)

  -- Client.Create once the keys' script has run: a failure removes the sandbox again. The result of
  -- that `rm -f` is only logged.
  abbrev pub after_install : CreateOpts → Option Error → W → Result Error (Unit {0}) × W
  after_install opts none w = (ok tt, w)
  after_install opts (some e) w = (
    err (install_keys e),
    (run detached (codes "rm" ∷ codes "-f" ∷ codes "--" ∷ opts.name ∷ []) w).1,
  )

  abbrev pub install_ssh_keys : CreateOpts → List Text → W → Result Error (Unit {0}) × W
  install_ssh_keys opts [] w = (ok tt, w)
  install_ssh_keys opts (k ∷ ks) w =
      let (o, w') =
        run request (codes "exec" ∷ opts.name ∷ codes "--" ∷ ssh_key_script_name ∷ []) w in
      after_install opts (wrap_run_err o.stderr o.failure) w'

  abbrev pub after_create : CreateOpts → Option Error → W → Result Error (Unit {0}) × W
  after_create opts (some e) w = (err e, w)
  after_create opts none w = install_ssh_keys opts opts.ssh_keys w

  -- Client.Create
  unfoldable pub create : CreateOpts → W → Result Error (Unit {0}) × W
  create opts w =
      let (o, w') = run request (build_create_args opts) w in
      after_create opts (wrap_run_err (redact_secrets o.stderr opts.secrets) o.failure) w'

  unfoldable pub start : Text → W → Result Error (Unit {0}) × W
  unfolding command
  start name = command (codes "start" ∷ codes "--" ∷ name ∷ [])

  unfoldable pub stop : Text → W → Result Error (Unit {0}) × W
  unfolding command
  stop name = command (codes "stop" ∷ codes "--" ∷ name ∷ [])

  unfoldable pub rm : Text → W → Result Error (Unit {0}) × W
  unfolding command
  rm name = command (codes "rm" ∷ codes "--" ∷ name ∷ [])

  -- Client.Exec
  unfoldable pub exec : Text → List Text → W → Result Error ExecResult × W
  unfolding exec_outcome
  exec name argv w =
      let (o, w') = run request (codes "exec" ∷ name ∷ codes "--" ∷ argv) w in (exec_outcome o, w')

  unfoldable pub logs : Text → LogsOpts → W → Result Error Text × W
  unfolding query
  logs name opts = query (logs_args name opts) ok

  unfoldable pub metrics : Text → W → Result Error (Metrics F) × W
  unfolding query
  metrics name =
      query (codes "metrics" ∷ codes "--format" ∷ codes "json" ∷ codes "--" ∷ name ∷ [])
        (parse_metrics json)

  unfoldable pub snapshot_list : W → Result Error (List Snapshot) × W
  unfolding query
  snapshot_list =
      query (codes "snapshot" ∷ codes "ls" ∷ codes "--format" ∷ codes "json" ∷ [])
        (parse_snapshot_list json)

  unfoldable pub snapshot_create : Text → Text → Map Text → Bool → W → Result Error (Unit {0}) × W
  unfolding command
  snapshot_create from dest labels force = command (snapshot_create_args from dest labels force)

  unfoldable pub snapshot_rm : Text → W → Result Error (Unit {0}) × W
  unfolding command
  snapshot_rm name = command (codes "snapshot" ∷ codes "rm" ∷ codes "--" ∷ name ∷ [])

  unfoldable pub volume_list : W → Result Error (List Volume) × W
  unfolding query
  volume_list =
      query (codes "volume" ∷ codes "ls" ∷ codes "--format" ∷ codes "json" ∷ [])
        (parse_volume_list json)

  unfoldable pub volume_create : Text → Text → W → Result Error (Unit {0}) × W
  unfolding command
  volume_create name size =
      command (codes "volume" ∷ codes "create" ∷ codes "--size" ∷ size ∷ codes "--" ∷ name ∷ [])

  unfoldable pub volume_rm : Text → W → Result Error (Unit {0}) × W
  unfolding command
  volume_rm name = command (codes "volume" ∷ codes "rm" ∷ codes "--" ∷ name ∷ [])
