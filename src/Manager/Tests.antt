-- ===== src/Manager/Tests.antt =====
-- the theorems on the startup and the safety of the server, on the small machine.
use msb_manager.Prelude.{
  ℕ, codes, true, some, ok, ◌≡◌, ◌≢◌, refl, Distinct, lookup, text_eq, text_neq, has_prefix,
}
use msb_manager.Msb.Validate.{valid_name, valid_image, valid_size}
use msb_manager.Msb.Args.{sorted_keys}
use msb_manager.Spec.{
  validate, check_scalars, check_volume, check_env_keys, check_ports, check_secrets, check_ssh_keys,
  to_create_opts,
}
use msb_manager.Server.{read_body}
use msb_manager.Server.Sandboxes.{parse_spec, handle_create_sandbox, handle_stop_sandbox}
use msb_manager.Server.Endings.{is_gone}
use msb_manager.Server.Outcomes.{IsAsked}
use msb_manager.Server.Handover.{handed_over}
use msb_manager.Lock.{new}
use msb_manager.Server.Routes.{serve}
use msb_manager.Server.Safety.{Covers}
use msb_manager.Server.Safety.Serving.{serve-Covers}
use msb_manager.Manager.{initial_backoff, max_backoff}
use msb_manager.Manager.Seeding.{reconcile_with_retry-Covers}
use msb_manager.Manager.Safety.{started}
use msb_manager.Manager.Machine.{machine, machine_view, halt, boot}
use msb_manager.Manager.Machine.Laws.{machine_laws, machine_startup}
use msb_manager.Manager.Scenario.{
  stops_third, busy_starts, busy, decode_spec, data_spec, yaml, create_request, idle, idle-Covers,
  busy_machine, data_held, busy-IsExclusive,
}

serve-Covers_example :
    Covers machine_view
      (serve (machine {F = ℕ}) yaml (λ s. s) (codes "secret") (create_request (codes "a")) idle).1
serve-Covers_example =
    serve-Covers machine_view machine machine_laws yaml (λ s. s) (codes "secret")
      (create_request (codes "a")) idle idle-Covers

reconcile_with_retry-Covers_example : Covers machine_view (started data_held busy_machine)
reconcile_with_retry-Covers_example =
    reconcile_with_retry-Covers machine_view (machine {F = ℕ}) machine_startup stops_third
      max_backoff 3 0 initial_backoff new data_held busy_machine busy_machine idle.readiness
      busy-IsExclusive busy_starts

data_Distinct : Distinct data_held
unfolding lookup
data_Distinct = (refl, tt)

asked : IsAsked (machine {F = ℕ}) decode_spec (some (codes "b")) (data_spec (codes "b"))
unfolding read_body parse_spec validate check_scalars check_volume check_env_keys check_ports
    check_secrets check_ssh_keys valid_name valid_image valid_size sorted_keys has_prefix
asked = record { sent = codes "b"; read = refl; decoded = refl; valid = refl }

neq : codes "a" ≢ codes "b"
unfolding text_eq
neq = text_neq (codes "a") (codes "b") refl

held_a : lookup (codes "data") data_held ≡ some (codes "a")
unfolding lookup text_eq
held_a = refl

valid_a : valid_name (codes "a") ≡ true
unfolding valid_name
valid_a = refl

stops : is_gone ((machine {F = ℕ}).stop (codes "a") busy_machine).0 ≡ true
unfolding machine halt text_eq
stops = refl

made :
    ((machine {F = ℕ}).create
      (to_create_opts (data_spec (codes "b")))
      ((machine {F = ℕ}).stop (codes "a") busy_machine).1).0
    ≡ ok tt
unfolding machine boot to_create_opts
made = refl

handed_over_example :
    let before = handle_create_sandbox (machine {F = ℕ}) decode_spec (some (codes "b")) busy in
    let after =
      handle_create_sandbox
        (machine {F = ℕ})
        decode_spec
        (some (codes "b"))
        (handle_stop_sandbox (machine {F = ℕ}) (codes "a") busy).1 in
    (before.0.status ≡ 409)
    × (before.1 ≡ busy)
    × (after.0.status ≡ 201)
    × (lookup (codes "data") after.1.held ≡ some (codes "b"))
handed_over_example =
    handed_over (machine {F = ℕ}) decode_spec (some (codes "b")) (data_spec (codes "b"))
      (record { name = codes "data"; mount = codes "/data" }) (codes "a") busy asked refl
      data_Distinct held_a neq valid_a stops made
