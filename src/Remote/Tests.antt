-- ===== src/Remote/Tests.antt =====
-- the commands of msbctl on a server over the small machine.
use msb_manager.Prelude.{ℕ, codes, true, none, some, [], ◌∷◌, ok, err, pos, ◌≡◌, refl}
use msb_manager.Msb.Validate.{valid_name}
use msb_manager.Server.{State}
use msb_manager.Server.Sandboxes.{handle_start_sandbox, handle_stop_sandbox, handle_delete_sandbox}
use msb_manager.Manager.Machine.{Machine, machine}
use msb_manager.Manager.Scenario.{yaml, busy}
use msb_manager.Ctl.Target.{Target}
use msb_manager.Ctl.Client.{new_client}
use msb_manager.Ctl.Commands.{Env}
use msb_manager.Ctl.Commands.Sandboxes.{cmd_start, cmd_stop, cmd_rm}
use msb_manager.Remote.Actions.{IsServed, connected, start_stop_rm-IsServed}

abbrev target : Target
target = record { url = codes "http://127.0.0.1:8080/"; token = codes "secret" }

abbrev env : Env (State Machine) ℕ
env = record {
  transport = λ q st. (err [], st);
  client = new_client target;
  target = target;
  getenv = λ name. [];
  stdin = ok [];
  read_file = λ path. err path;
  codec = record {
    error_field = λ s. none;
    exec_output = λ s. err s;
    rows = λ s. err s;
    object = λ s. err s;
    any_value = λ s. err s;
    to_yaml = λ s. err s;
    tabulate = λ rows. [];
    integral = λ n. some (pos n);
    format_float = λ n. [];
  };
  read_yaml = λ s. err s;
  write_yaml = λ d. err [];
}

abbrev network : Env (State Machine) ℕ
network =
    connected (machine {F = ℕ}) yaml (λ s. s) (λ b. []) (λ p. [])
      (λ u. record { tail = []; since = []; until = []; source = []; grep = [] }) target env

valid_a : valid_name (codes "a") ≡ true
unfolding valid_name
valid_a = refl

start_stop_rm-IsServed_example :
    IsServed
      (cmd_start network (codes "a" ∷ []) busy)
      (handle_start_sandbox (machine {F = ℕ}) (codes "a") busy)
    × IsServed
        (cmd_stop network (codes "a" ∷ []) busy)
        (handle_stop_sandbox (machine {F = ℕ}) (codes "a") busy)
    × IsServed
        (cmd_rm network (codes "a" ∷ []) busy)
        (handle_delete_sandbox (machine {F = ℕ}) (codes "a") busy)
start_stop_rm-IsServed_example =
    start_stop_rm-IsServed machine yaml (λ s. s) (λ b. []) (λ p. [])
      (λ u. record { tail = []; since = []; until = []; source = []; grep = [] }) target env
      (codes "a") busy refl valid_a
