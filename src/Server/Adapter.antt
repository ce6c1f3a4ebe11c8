-- ===== src/Server/Adapter.antt =====
-- cmd/msb-manager/main.go: the client of internal/msb is what the server is given as its MsbClient,
-- and what the server makes of a call that hit the deadline.
pub mod Commands
pub mod Laws
use msb_manager.Prelude.{Text, codes, true, some, List, [], ◌∷◌, err, ◌≡◌, refl}
use msb_manager.Msb.Errors.{Error, timed_out, is_error, wrap_run_err}
use msb_manager.Msb.Validate.{valid_name}
use msb_manager.Msb.Runner.{run_child}
use msb_manager.Msb.Parse.{Json}
use msb_manager.Msb.Client
use msb_manager.Msb.Client.{Spawn, Config, Context, request}
use msb_manager.Server.{MsbClient, State, status_for_adapter_error, adapter_error, check_path_name}
use msb_manager.Server.Sandboxes.{handle_stop_sandbox, stopped, ended}

abbrev pub adapter : {W F : Type 0} → Spawn W → Json F → Config → MsbClient W F
adapter spawn json c = record {
  list = Client.list spawn json c;
  inspect = Client.inspect spawn json c;
  create = Client.create spawn json c;
  start = Client.start spawn json c;
  stop = Client.stop spawn json c;
  rm = Client.rm spawn json c;
  exec = Client.exec spawn json c;
  logs = Client.logs spawn json c;
  metrics = Client.metrics spawn json c;
  volume_list = Client.volume_list spawn json c;
  volume_create = Client.volume_create spawn json c;
  volume_rm = Client.volume_rm spawn json c;
  snapshot_list = Client.snapshot_list spawn json c;
  snapshot_create = Client.snapshot_create spawn json c;
  snapshot_rm = Client.snapshot_rm spawn json c;
}

abbrev stop_args : Text → List Text
stop_args name = codes "stop" ∷ codes "--" ∷ name ∷ []

module _ {W F : Type 0} (spawn : Spawn W) (json : Json F) (c : Config) where
  stop_timed_out :
      (name : Text) (w : W) (e : Error)
      → (run_child c.max_capture_bytes
          (spawn request c.timeout c.bin (stop_args name) w).0).deadline
        ≡ true
      → (run_child c.max_capture_bytes (spawn request c.timeout c.bin (stop_args name) w).0).failure
        ≡ some e
      → (Client.stop spawn json c name w).0 ≡ err (timed_out e)
  unfolding Client.stop Client.command Client.run Client.run_outcome wrap_run_err is_error
  stop_timed_out name w e d f = rw (d, f) refl

  -- A stop that hit the deadline answers 504 and frees no volume, whatever msb wrote to stderr, a
  -- "sandbox not found" included: the sandbox may still run.
  pub stop_deadline :
      (name : Text) (st : State W) (e : Error)
      → valid_name name ≡ true
      → (run_child c.max_capture_bytes
          (spawn request c.timeout c.bin (stop_args name) st.world).0).deadline
        ≡ true
      → (run_child c.max_capture_bytes
          (spawn request c.timeout c.bin (stop_args name) st.world).0).failure
        ≡ some e
      → ((handle_stop_sandbox (adapter spawn json c) name st).0.status ≡ 504)
        × ((handle_stop_sandbox (adapter spawn json c) name st).1.held ≡ st.held)
  unfolding handle_stop_sandbox check_path_name stopped ended adapter_error status_for_adapter_error
      is_error
  stop_deadline name st e v d f = rw (v, stop_timed_out name st.world e d f, ended) (refl, refl)
