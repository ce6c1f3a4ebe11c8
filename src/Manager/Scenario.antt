-- ===== src/Manager/Scenario.antt =====
-- the requests and states that the tests run internal/server on: sandboxes that want one volume.
use msb_manager.Prelude.{
  ℕ, Text, codes, Bool, true, false, none, some, List, [], ◌∷◌, Result, ok, err, pos, ◌≡◌, refl,
  ◌∙◌, sym, text_eq, text_eq_iff, Bool-cases, inl, inr, ◌==◌, insert, delete,
}
use msb_manager.Lock.{Held, has_name, new, reconcile, copy_all}
use msb_manager.Msb.Types.{volume_names, volume_names_of}
use msb_manager.Spec.{Spec}
use msb_manager.Server.{State}
use msb_manager.Server.Routes.{Request, Method, post, Yaml}
use msb_manager.Server.Safety.{Covers}
use msb_manager.Server.Safety.Serving.{IsExclusive}
use msb_manager.Manager.{
  ready, reconcile_volumes, reconcile_with_retry, collect, set_all, initial_backoff, max_backoff,
}
use msb_manager.Manager.Seeding.{reconcile_with_retry-Covers}
use msb_manager.Manager.Safety.{started}
use msb_manager.Manager.Machine.{Machine, machine, machine_view, named}
use msb_manager.Manager.Machine.Laws.{machine_startup}

-- a spec for a sandbox with the name that the body is, and the volume "data"
abbrev pub data_spec : Text → Spec
data_spec body = record {
  name = body;
  image = codes "alpine";
  snapshot = [];
  cpus = pos 1;
  memory = pos 512;
  volume = some (record { name = codes "data"; mount = codes "/data" });
  env = [];
  ports = [];
  secrets = [];
  ssh_keys = [];
}

abbrev pub decode_spec : Text → Result Text Spec
decode_spec body = ok (data_spec body)

abbrev pub yaml : Yaml
yaml = record {
  spec = decode_spec;
  volume = record {
    probe = λ body. ok false;
    manifest = λ body. ok [];
    request = λ body. ok (record { name = body; size = codes "5G" });
  };
  snapshot = λ body. err body;
  exec = λ body. ok (body ∷ []);
}

abbrev pub request : Method → List Text → Text → Request
request m path body = record {
  method = m;
  path = path;
  authorization = codes "Bearer secret";
  body = some body;
  query = record { tail = []; since = []; until = []; source = []; grep = [] };
  now = 0;
  later = 0;
}

abbrev pub create_request : Text → Request
create_request name = request post (codes "sandboxes" ∷ []) name

abbrev pub idle_machine : Machine
idle_machine = record { names = []; mounts = λ n. [] }

abbrev pub idle : State Machine
idle = record {
  held = [];
  world = idle_machine;
  readiness = record { checked_at = none; last = none };
}

pub idle-Covers : Covers machine_view idle
idle-Covers = record { distinct = tt; claimed = λ n v up on. absurd (cc up) }

-- two creates that want the volume, and the second again after the first sandbox has stopped
abbrev pub requests : List Request
requests =
    create_request (codes "a")
    ∷ create_request (codes "b")
    ∷ request post (codes "sandboxes" ∷ codes "a" ∷ codes "stop" ∷ []) []
    ∷ create_request (codes "b")
    ∷ []

-- a machine on which the sandbox "a" runs with the volume
abbrev pub busy_machine : Machine
busy_machine = record { names = codes "a" ∷ []; mounts = λ n. named (codes "data") ∷ [] }

only_a : (n : Text) → has_name n (codes "a" ∷ []) ≡ true → n ≡ codes "a"
only_a n h = elim (Bool-cases (text_eq (codes "a") n)) [
  | inl e ↦ sym ((text_eq_iff (codes "a") n).0 e)
  | inr e ↦ absurd (cc (rw e at h))
]

pub busy-IsExclusive : IsExclusive machine_view busy_machine
unfolding IsExclusive
busy-IsExclusive a b v up up' on on' = only_a a up ∙ sym (only_a b up')

abbrev pub data_held : Held
data_held = (codes "data", codes "a") ∷ []

-- the context is canceled at the third wait
abbrev pub stops_third : ℕ → ℕ → Bool
stops_third i b = i == 2

pub busy_starts :
    reconcile_with_retry
      (machine {F = ℕ})
      stops_third
      max_backoff
      3
      0
      initial_backoff
      new
      busy_machine
    ≡ some (ready data_held busy_machine)
unfolding reconcile_with_retry reconcile_volumes machine collect reconcile copy_all set_all
    volume_names volume_names_of text_eq insert delete
busy_starts = refl

abbrev pub busy : State Machine
busy = started data_held busy_machine

pub busy-Covers : Covers machine_view busy
busy-Covers =
    reconcile_with_retry-Covers machine_view (machine {F = ℕ}) machine_startup stops_third
      max_backoff 3 0 initial_backoff new data_held busy_machine busy_machine idle.readiness
      busy-IsExclusive busy_starts
