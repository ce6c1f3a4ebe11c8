-- ===== src/Ctl/Run.antt =====
-- cmd/msbctl/main.go: run, with loadConfig, configPath and shouldWarnCleartext of config.go.
pub mod Tokenless
pub mod Sending
use msb_manager.Prelude.{
  ℕ, ◌%◌, Text, codes, Bool, true, false, Option, none, some, List, [], ◌∷◌, ◌++◌, Map, lookup,
  Result, ok, err, pos, ◌==◌, not, is_empty, text_eq, if◌then◌else◌,
}
use msb_manager.Ctl.Target.{CliFlags, Target, TargetError, ConfigFile, resolve_target}
use msb_manager.Ctl.Interpolate.{Node}
use msb_manager.Ctl.Flags.{text, FlagSet, FlagError, parse, Parsed}
use msb_manager.Ctl.Client.{Transport, new_client}
use msb_manager.Ctl.Render.{Codec}
use msb_manager.Ctl.Commands.{
  Env, Ran, Command, Note, error_note, of_flags, of_target, unknown_command, usage_note,
  cleartext_warning, failed, printed, text_flag,
}
use msb_manager.Ctl.Commands.Sandboxes.{
  cmd_list, cmd_inspect, cmd_create, cmd_start, cmd_stop, cmd_rm, cmd_exec, cmd_logs, cmd_metrics,
}
use msb_manager.Ctl.Commands.Storage.{cmd_volume, cmd_snapshot}

-- os.Stat
pub data Stat : Type 0 where
  missing : Stat
  stat_failed : Text → Stat
  permissions : ℕ → Stat

-- url.Parse, as far as shouldWarnCleartext looks at it
pub record ParsedUrl : Type 0 where
  pub scheme : Text
  pub hostname : Text

-- the system and the libraries
pub record Sys (W F : Type 0) : Type 0 where
  pub transport : Transport W
  pub getenv : Text → Text
  pub stdin : Result Text Text
  pub stat : Text → Stat
  pub read_file : Text → Result Text Text
  -- filepath.Join
  pub join : List Text → Text
  pub parse_url : Text → Option ParsedUrl
  -- net.ParseIP, and IsLoopback of the address
  pub parse_ip : Text → Option Bool
  pub codec : Codec F
  pub read_yaml : Text → Result Text Node
  pub write_yaml : Node → Result Text Text
  pub read_config : Text → Result Text ConfigFile
  pub usage : Text

abbrev pub global_flags : FlagSet
global_flags =
    (codes "server", text []) ∷ (codes "profile", text []) ∷ (codes "token", text []) ∷ []

abbrev pub cli_flags : FlagSet → CliFlags
cli_flags fs = record {
  server = text_flag "server" fs;
  profile = text_flag "profile" fs;
  token = text_flag "token" fs;
}

-- the commands that init registers
abbrev pub commands : {W F : Type 0} → Map (Env W F → Command W)
commands =
    (codes "ls", cmd_list)
    ∷ (codes "list", cmd_list)
    ∷ (codes "inspect", cmd_inspect)
    ∷ (codes "create", cmd_create)
    ∷ (codes "start", cmd_start)
    ∷ (codes "stop", cmd_stop)
    ∷ (codes "rm", cmd_rm)
    ∷ (codes "exec", cmd_exec)
    ∷ (codes "logs", cmd_logs)
    ∷ (codes "metrics", cmd_metrics)
    ∷ (codes "volume", cmd_volume)
    ∷ (codes "snapshot", cmd_snapshot)
    ∷ []

module _ {W F : Type 0} (sys : Sys W F) where
  -- configPath
  unfoldable pub config_path : Text
  config_path =
      let base = sys.getenv (codes "XDG_CONFIG_HOME") in
      let base' =
        if is_empty base
        then sys.join (sys.getenv (codes "HOME") ∷ codes ".config" ∷ [])
        else base in
      sys.join (base' ∷ codes "msbctl" ∷ codes "config.yaml" ∷ [])

  abbrev config_read : Result Text Text → Result Text (Option ConfigFile)
  config_read (err m) = err (codes "read config: " ++ m)
  config_read (ok raw) = elim (sys.read_config raw) [
    | err m ↦ err (codes "parse config: " ++ m)
    | ok c ↦ ok (some c)
  ]

  abbrev permission_notes : ℕ → List Note
  permission_notes p =
      if p % 64 == 0 then [] else error_note (codes "config file has loose permissions") ∷ []

  -- loadConfig, with its warning
  unfoldable pub load_config : Text → Result Text (Option ConfigFile) × List Note
  load_config path = elim (sys.stat path) [
    | missing ↦ (ok none, [])
    | stat_failed m ↦ (err (codes "stat config: " ++ m), [])
    | permissions p ↦ (config_read (sys.read_file path), permission_notes p)
  ]

  abbrev not_loopback : Option Bool → Bool
  not_loopback none = true
  not_loopback (some b) = not b

  -- shouldWarnCleartext
  unfoldable pub should_warn_cleartext : Text → Bool
  should_warn_cleartext raw = elim (sys.parse_url raw) [
    | none ↦ false
    | some u ↦
        if text_eq u.scheme (codes "http")
        then (if text_eq u.hostname (codes "localhost")
            then false
            else not_loopback (sys.parse_ip u.hostname))
        else false
  ]

  -- the env of run
  unfoldable pub env_of : Target → Env W F
  unfolding new_client
  env_of t = record {
    transport = sys.transport;
    client = new_client t;
    target = t;
    getenv = sys.getenv;
    stdin = sys.stdin;
    read_file = sys.read_file;
    codec = sys.codec;
    read_yaml = sys.read_yaml;
    write_yaml = sys.write_yaml;
  }

  -- what was warned of before the command ran
  abbrev pub warned : List Note → Ran W → Ran W
  warned notes r = record r { notes = notes ++ r.notes }

  abbrev pub cleartext_notes : Target → List Note
  cleartext_notes t = if should_warn_cleartext t.url then cleartext_warning t.url ∷ [] else []

  abbrev pub run_resolved :
      (Env W F → Command W) → List Text → Result TargetError Target → W → Ran W
  run_resolved cmd args (err e) w = failed (of_target e) w
  run_resolved cmd args (ok t) w = warned (cleartext_notes t) (cmd (env_of t) args w)

  abbrev pub run_configured :
      CliFlags
      → (Env W F → Command W)
      → List Text
      → Result Text (Option ConfigFile) × List Note
      → W
      → Ran W
  run_configured flags cmd args (err m, notes) w = warned notes (failed (error_note m) w)
  run_configured flags cmd args (ok cfg, notes) w =
      warned notes (run_resolved cmd args (resolve_target flags sys.getenv cfg) w)

  abbrev pub run_known : CliFlags → Option (Env W F → Command W) → Text → List Text → W → Ran W
  run_known flags none name args w = failed (unknown_command name) w
  run_known flags (some cmd) name args w = run_configured flags cmd args (load_config config_path) w

  abbrev pub run_parsed : Parsed → W → Ran W
  run_parsed (err e) w = failed (of_flags e) w
  run_parsed (ok (fs, [])) w = failed usage_note w
  run_parsed (ok (fs, name ∷ args)) w =
      if text_eq name (codes "help")
      then printed 0 sys.usage w
      else run_known (cli_flags fs) (lookup name commands) name args w

  -- run
  unfoldable pub run : Command W
  run args w = run_parsed (parse global_flags args) w
