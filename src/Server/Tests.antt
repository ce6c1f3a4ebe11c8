-- ===== src/Server/Tests.antt =====
-- the theorems on the handlers, on a machine where the sandbox "a" runs with the volume "data".
use msb_manager.Prelude.{
  Text, List, ℕ, codes, true, false, some, [], ◌∷◌, ok, err, pos, ◌≡◌, refl, ◌⊎◌, Distinct, lookup,
  text_eq, arith,
}
use msb_manager.Lock.{has_name}
use msb_manager.Msb.Errors.{Error, other}
use msb_manager.Msb.Types
use msb_manager.Msb.Types.{volume_names, volume_names_of}
use msb_manager.Msb.Validate.{valid_name}
use msb_manager.Msb.Runner.{Child, run_child, capture_limit, write_all, write}
use msb_manager.Msb.Parse.{Json}
use msb_manager.Msb.Client.{Spawn, Config}
use msb_manager.Spec.{Spec}
use msb_manager.Server.{MsbClient, conflict, volume_in_use}
use msb_manager.Server.Auth.{unauthorized}
use msb_manager.Server.Routes.{serve, asks_for}
use msb_manager.Server.Sandboxes.{
  volumes_from_spec, handle_create_sandbox, handle_start_sandbox, handle_stop_sandbox,
  handle_delete_sandbox,
}
use msb_manager.Server.Volumes.{VolumeRequest, run_batch, handle_delete_volume}
use msb_manager.Server.Volumes.Batching.{create_each, unlisted, run_batch_creates}
use msb_manager.Server.Readiness.{ready, is_canceled}
use msb_manager.Server.Readiness.Caching.{ready_repeats}
use msb_manager.Server.Adapter.{adapter, stop_deadline}
use msb_manager.Server.Guarding.{IsAuthorized, serve_guarded}
use msb_manager.Server.Mounting.{IsMountedBy}
use msb_manager.Server.Outcomes.{
  IsAsked, IsClaiming, IsRefused, create_sandbox_lem, start_sandbox_lem,
}
use msb_manager.Server.Endings.{
  IsEnded, stop_sandbox_lem, delete_sandbox_lem, delete_mounted_volume,
}
use msb_manager.Manager.Machine.{Machine, machine, machine_view}
use msb_manager.Manager.Scenario.{
  decode_spec, yaml, create_request, data_held, busy_machine, busy, busy-Covers,
}

abbrev client : MsbClient Machine ℕ
client = machine

create_sandbox_lem_example :
    ((s : Spec) × IsAsked client decode_spec (some (codes "b")) s
      × IsClaiming 201 s.name
          (volumes_from_spec s.volume)
          busy
          (handle_create_sandbox client decode_spec (some (codes "b")) busy))
    ⊎ IsRefused busy (handle_create_sandbox client decode_spec (some (codes "b")) busy)
create_sandbox_lem_example = create_sandbox_lem client decode_spec (some (codes "b")) busy

start_sandbox_lem_example :
    ((d : Types.SandboxDetail) × ((client.inspect (codes "b") busy.world).0 ≡ ok d)
      × ((vs : List Text) × IsMountedBy d.mounts vs
          × IsClaiming 204 (codes "b") vs busy (handle_start_sandbox client (codes "b") busy)))
    ⊎ IsRefused busy (handle_start_sandbox client (codes "b") busy)
start_sandbox_lem_example = start_sandbox_lem client (codes "b") busy

valid_a : valid_name (codes "a") ≡ true
unfolding valid_name
valid_a = refl

valid_data : valid_name (codes "data") ≡ true
unfolding valid_name
valid_data = refl

data_Distinct : Distinct data_held
unfolding lookup
data_Distinct = (refl, tt)

stop_sandbox_lem_example :
    IsEnded
      (codes "stop sandbox")
      (codes "a")
      (client.stop (codes "a") busy.world).0
      busy
      (handle_stop_sandbox client (codes "a") busy)
stop_sandbox_lem_example = stop_sandbox_lem client (codes "a") busy valid_a data_Distinct

delete_sandbox_lem_example :
    IsEnded
      (codes "remove sandbox")
      (codes "a")
      (client.rm (codes "a") busy.world).0
      busy
      (handle_delete_sandbox client (codes "a") busy)
delete_sandbox_lem_example = delete_sandbox_lem client (codes "a") busy valid_a data_Distinct

a_runs : machine_view.running busy_machine (codes "a") ≡ true
unfolding text_eq
a_runs = refl

a_mounts : has_name (codes "data") (machine_view.volumes_of busy_machine (codes "a")) ≡ true
unfolding volume_names_of text_eq
a_mounts = refl

delete_mounted_volume_example :
    handle_delete_volume client (codes "data") busy
    ≡ (conflict (volume_in_use (codes "data") (codes "a")), busy)
delete_mounted_volume_example =
    delete_mounted_volume client machine_view (codes "data") (codes "a") busy busy-Covers valid_data
      a_runs a_mounts

not_healthz : asks_for (codes "healthz") (create_request (codes "b")) ≡ false
not_healthz = refl

not_readyz : asks_for (codes "readyz") (create_request (codes "b")) ≡ false
not_readyz = refl

bearer-IsAuthorized : IsAuthorized (λ s. s) (codes "secret") (codes "Bearer secret")
bearer-IsAuthorized = record {
  configured = refl;
  presented = codes "secret";
  header = refl;
  digest = refl;
}

-- a server that has no token
not-IsAuthorized : ¬ (IsAuthorized (λ s. s) [] (codes "Bearer secret"))
not-IsAuthorized a = absurd (cc a.configured)

serve_guarded_example :
    serve client yaml (λ s. s) [] (create_request (codes "b")) busy ≡ (unauthorized, busy)
serve_guarded_example =
    serve_guarded client yaml (λ s. s) [] (create_request (codes "b")) busy not_healthz not_readyz
      not-IsAuthorized

abbrev db : VolumeRequest
db = record { name = codes "db"; size = codes "5G" }

no_volumes : (client.volume_list busy.world).0 ≡ ok []
unfolding machine
no_volumes = refl

run_batch_creates_example : (run_batch client (db ∷ []) busy).1 ≡ record busy {
  world = create_each client (unlisted [] (db ∷ [])) (client.volume_list busy.world).1;
}
run_batch_creates_example = run_batch_creates client (db ∷ []) busy [] no_volumes

ls_succeeds : (e : Error) → (client.list busy.world).0 ≡ err e → is_canceled e ≡ false
unfolding machine
ls_succeeds e h = absurd (cc h)

ready_repeats_example : ready client 20 30 (ready client 5 10 busy).1 ≡ ready client 5 10 busy
ready_repeats_example = ready_repeats client 5 10 20 30 busy refl ls_succeeds (omega arith)

-- an msb that hangs until it is killed, and has written a misleading line
abbrev hanging : Child
hanging = record {
  stdout_chunks = [];
  stderr_chunks = codes "error: sandbox not found: a" ∷ [];
  failure = some (other (codes "signal: killed"));
  deadline = true;
}

abbrev hangs : Spawn Machine
hangs ctx t bin args w = (hanging, w)

abbrev no_json : Json ℕ
no_json = record {
  sandboxes = λ t. err t;
  detail = λ t. err t;
  metrics = λ t. err t;
  snapshots = λ t. err t;
  volumes = λ t. err t;
}

abbrev config : Config
config = record { bin = codes "msb"; timeout = pos 60000000000; max_capture_bytes = pos 0 }

hanging_failure : (run_child (pos 0) hanging).failure ≡ some (other (codes "signal: killed"))
unfolding run_child write_all write capture_limit
hanging_failure = refl

hanging_deadline : (run_child (pos 0) hanging).deadline ≡ true
unfolding run_child
hanging_deadline = refl

stop_deadline_example :
    ((handle_stop_sandbox (adapter hangs no_json config) (codes "a") busy).0.status ≡ 504)
    × ((handle_stop_sandbox (adapter hangs no_json config) (codes "a") busy).1.held ≡ busy.held)
stop_deadline_example =
    stop_deadline hangs no_json config (codes "a") busy (other (codes "signal: killed")) valid_a
      hanging_deadline hanging_failure
