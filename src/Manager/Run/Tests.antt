-- ===== src/Manager/Run/Tests.antt =====
-- the theorems on the whole process, on the small machine.
use msb_manager.Prelude.{
  ℕ, Text, codes, Option, none, some, [], ◌∷◌, ok, ℤ, pos, if◌then◌else◌, text_eq, insert, delete,
  ◌≡◌, refl, arith, ◌↔◌,
}
use msb_manager.Config
use msb_manager.Config.{load, parse_timeout}
use msb_manager.Lock.{reconcile, copy_all}
use msb_manager.Msb.Errors.{wrap_run_err}
use msb_manager.Msb.Types.{volume_names, volume_names_of}
use msb_manager.Msb.Runner.{run_child, capture_limit, write_all, write}
use msb_manager.Msb.Parse.{parse_list, to_sandbox, parse_inspect, to_detail, to_mount}
use msb_manager.Msb.Client
use msb_manager.Server.Adapter.{adapter}
use msb_manager.Server.Routes.{serve, post, Yaml}
use msb_manager.Spec.{Spec}
use msb_manager.Server.Safety.Serving.{IsExclusive}
use msb_manager.Manager.{Startup, ready, reconcile_with_retry, reconcile_volumes, collect, set_all}
use msb_manager.Manager.Safety.{started}
use msb_manager.Manager.Machine.{Machine, machine, machine_view}
use msb_manager.Manager.Scenario.{
  stops_third, busy_starts, yaml, request, requests, create_request, data_spec, busy_machine,
  data_held, busy-IsExclusive,
}
use msb_manager.Manager.Run.{
  signaled, server_closed, Surroundings, new_http_server, handle_all, client_config, after_startup,
  listen_err, await_end, startup, run, exit_status, is_canceled, main,
}
use msb_manager.Manager.Command
use msb_manager.Manager.Command.Laws.{command_laws, command_startup}
use msb_manager.Manager.Run.Processes.{process-IsExclusive}
use msb_manager.Manager.Run.Status.{IsOrderly, main_zero, main_settles}

-- only the token is set
abbrev environment : Text → Text
environment name = if text_eq name (codes "MSB_MANAGER_TOKEN") then codes "secret" else []

abbrev no_duration : Text → Option ℤ
no_duration v = none

-- the server handles the requests of the scenario, and a signal closes it
abbrev surroundings : Surroundings
surroundings = record {
  getenv = environment;
  stops = stops_third;
  requests = requests;
  ending = signaled none (some server_closed);
}

abbrev last_machine : Machine
last_machine =
    (handle_all
      (new_http_server (codes "127.0.0.1:8080")
        (serve (machine {F = ℕ}) yaml (λ s. s) (codes "secret")))
      requests (started data_held busy_machine)).world

abbrev secret_config : Config.Config
secret_config = record {
  token = codes "secret";
  listen_addr = codes "127.0.0.1:8080";
  msb_path = codes "msb";
  data_dir = codes "/var/lib/msb-manager";
  cmd_timeout = pos 60000000000;
}

loads : load no_duration environment ≡ ok secret_config
unfolding load parse_timeout text_eq
loads = refl

run_ends :
    run (λ c. machine {F = ℕ}) no_duration yaml (λ s. s) 3 surroundings busy_machine
    ≡ some (none, last_machine)
unfolding run startup after_startup await_end listen_err
run_ends = rw (loads, run, busy_starts) refl

main_ends :
    main (λ c. machine {F = ℕ}) no_duration yaml (λ s. s) 3 surroundings busy_machine
    ≡ some (0, last_machine)
unfolding main exit_status is_canceled
main_ends = rw (run_ends, main) refl

main_zero_example : ◌≡◌ {A = ℕ} 0 0 ↔ (
    (cfg : Config.Config) × (load no_duration environment ≡ ok cfg)
    × ((s : Startup Machine) × (startup
            (λ c. machine {F = ℕ})
            no_duration
            yaml
            (λ s. s)
            3
            cfg
            surroundings
            busy_machine
          ≡ some s)
        × IsOrderly s surroundings.ending))
main_zero_example =
    main_zero (λ c. machine {F = ℕ}) no_duration yaml (λ s. s) 3 surroundings busy_machine
      last_machine 0 main_ends

main_settles_example :
    (r : ℕ × Machine) × (main
        (λ c. machine {F = ℕ})
        no_duration
        yaml
        (λ s. s)
        3
        surroundings
        busy_machine
      ≡ some r)
main_settles_example =
    main_settles (λ c. machine {F = ℕ}) no_duration yaml (λ s. s) 3 2 surroundings busy_machine
      (λ b. refl) (omega arith)

-- the spec named by the body, with a key; "c" has no volume that the script of the keys can write to
abbrev keyed_spec : Text → Spec
keyed_spec body = record (data_spec body) {
  ssh_keys = codes "ssh-ed25519 AAAA" ∷ [];
  volume =
      if text_eq body (codes "c")
      then none
      else some (record { name = codes "data"; mount = codes "/data" });
}

abbrev keyed_yaml : Yaml
keyed_yaml = record yaml { spec = λ body. ok (keyed_spec body) }

-- "b" wants the volume of "a", and again once "a" has stopped; the keys of "c" cannot be installed;
-- "a" wants the volume back. At the end "b" runs alone.
abbrev command_surroundings : Surroundings
command_surroundings = record surroundings {
  requests =
      create_request (codes "b")
      ∷ request post (codes "sandboxes" ∷ codes "a" ∷ codes "stop" ∷ []) []
      ∷ create_request (codes "b")
      ∷ create_request (codes "c")
      ∷ request post (codes "sandboxes" ∷ codes "a" ∷ codes "start" ∷ []) []
      ∷ [];
}

abbrev command_config : Client.Config
command_config = client_config secret_config

abbrev last_state : Machine
last_state =
    (handle_all
      (new_http_server (codes "127.0.0.1:8080") (
        serve (adapter Command.spawn Command.json command_config) keyed_yaml (λ s. s)
          (codes "secret")))
      command_surroundings.requests (started data_held busy_machine)).world

command_starts :
    startup
      (adapter Command.spawn Command.json)
      no_duration
      keyed_yaml
      (λ s. s)
      3
      secret_config
      command_surroundings
      busy_machine
    ≡ some (ready data_held busy_machine)
unfolding startup reconcile_with_retry reconcile_volumes collect reconcile copy_all set_all
    volume_names volume_names_of text_eq insert delete Client.new_client_with_timeout Client.list
    Client.inspect Client.query Client.run Client.run_outcome run_child capture_limit write_all
    write wrap_run_err Command.spawn Command.target Command.encode Command.decode parse_list
    to_sandbox parse_inspect to_detail to_mount
command_starts = refl

process_ends :
    run
      (adapter Command.spawn Command.json)
      no_duration
      keyed_yaml
      (λ s. s)
      3
      command_surroundings
      busy_machine
    ≡ some (none, last_state)
unfolding run after_startup await_end listen_err
process_ends = rw (loads, run, command_starts) refl

process-IsExclusive_example : IsExclusive machine_view last_state
process-IsExclusive_example =
    process-IsExclusive machine_view Command.spawn Command.json no_duration keyed_yaml (λ s. s) 3
      command_surroundings busy_machine last_state none (λ cfg r. command_laws (client_config cfg))
      (λ cfg r. command_startup (client_config cfg)) busy-IsExclusive process_ends
