-- ===== src/Manager/Command/Tests.antt =====
-- the client of internal/msb over the small msb command: it makes sandboxes, and undoes one whose keys
-- cannot be installed.
use msb_manager.Prelude.{
  ℕ, Text, codes, Option, none, some, [], ◌∷◌, ok, err, pos, ◌≡◌, refl, text_eq, contains_byte,
  trim_space, has_prefix,
}
use msb_manager.Msb.Errors.{
  install_keys, exit_error, wrap_run_err, is_error, classify_error, classify_in, find_after,
}
use msb_manager.Msb.Types.{CreateOpts, VolumeMount, volume_names_of}
use msb_manager.Msb.Args.{build_create_args}
use msb_manager.Msb.Runner.{run_child, write_all, write, capture_limit}
use msb_manager.Msb.Client
use msb_manager.Msb.Client.{Config}
use msb_manager.Server.Adapter.{adapter}
use msb_manager.Server.Adapter.Laws.{adapter-MsbLaws}
use msb_manager.Server.Safety.{MsbLaws}
use msb_manager.Server.{MsbClient}
use msb_manager.Manager.Machine.{Machine, machine_view, boot, halt, without}
use msb_manager.Manager.Scenario.{busy_machine}
use msb_manager.Manager.Command
use msb_manager.Manager.Command.Laws.{command_laws}

abbrev config : Config
config = record { bin = codes "msb"; timeout = pos 60000000000; max_capture_bytes = pos 0 }

abbrev client : MsbClient Machine ℕ
client = adapter Command.spawn Command.json config

-- a sandbox with a key
abbrev keyed : Text → Option VolumeMount → CreateOpts
keyed name volume = record {
  name = name;
  image = codes "alpine";
  snapshot = [];
  cpus = pos 1;
  memory_mib = pos 0;
  volume = volume;
  env = [];
  ports = [];
  secrets = [];
  ssh_keys = codes "key" ∷ [];
}

abbrev extra : VolumeMount
extra = record { name = codes "extra"; mount = codes "/extra" }

-- a second sandbox runs, with its volume
makes_keyed :
    ((client.create (keyed (codes "b") (some extra)) busy_machine).0 ≡ ok tt)
    × ((client.create (keyed (codes "b") (some extra)) busy_machine).1.names
        ≡ codes "b" ∷ codes "a" ∷ [])
    × (volume_names_of
          ((client.create (keyed (codes "b") (some extra)) busy_machine).1.mounts (codes "b"))
        ≡ codes "extra" ∷ [])
unfolding Client.create Client.run Client.run_outcome wrap_run_err run_child write_all write
    Command.spawn build_create_args text_eq Command.volume_in contains_byte Command.after_colon boot
    Command.before_colon volume_names_of
makes_keyed = (refl, refl, refl)

-- the keys of one without a volume cannot be installed, and it does not run
undoes_keyed :
    ((client.create (keyed (codes "c") none) busy_machine).0
      ≡ err (install_keys (exit_error (pos 1))))
    × ((client.create (keyed (codes "c") none) busy_machine).1.names ≡ codes "a" ∷ [])
unfolding Client.create Client.run Client.run_outcome wrap_run_err run_child write_all write
    Command.spawn build_create_args text_eq Command.volume_in contains_byte Command.after_colon boot
    Command.before_colon Command.target volume_names_of halt without capture_limit is_error
    classify_error classify_in find_after trim_space has_prefix
undoes_keyed = (refl, refl)

adapter-MsbLaws_example : MsbLaws machine_view client
adapter-MsbLaws_example =
    adapter-MsbLaws machine_view Command.spawn Command.json config (command_laws config)
