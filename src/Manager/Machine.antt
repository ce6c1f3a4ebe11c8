-- ===== src/Manager/Machine.antt =====
-- a small machine that keeps the laws under which the safety of cmd/msb-manager and internal/server
-- is stated: the sandboxes that run, and the mounts of each.
pub mod Laws
use msb_manager.Prelude.{
  Text, codes, Bool, true, false, Option, none, some, List, [], ◌∷◌, if◌then◌else◌, Result, ok, err,
  is_empty, text_eq, text_eq_refl, text_eq_iff, Bool-cases, inl, inr, ◌≡◌, ◌≢◌, refl, sym, ap, ◌∙◌,
  arith, map, not, ◌&&◌, pos,
}
use msb_manager.Msb.Errors.{
  Error, classified, canceled, sandbox_not_found, volume_not_found, other, is_error,
}
use msb_manager.Msb.Types
use msb_manager.Msb.Types.{Mount, volume_names_of, volume_names, VolumeMount}
use msb_manager.Server.{MsbClient}
use msb_manager.Lock.{has_name}
use msb_manager.Manager.Collecting.{StartupLaws, lists}
use msb_manager.Server.Safety.{View, Same, Booted, Ended, MsbLaws, mounted}

pub record Machine : Type 0 where
  pub names : List Text
  pub mounts : Text → List Mount

abbrev pub up : Machine → Text → Bool
up w n = has_name n w.names

-- the list without a name
unfoldable pub without : Text → List Text → List Text
without k [] = []
without k (n ∷ ns) = let rest = without k ns in if text_eq n k then rest else n ∷ rest

-- the function with one value changed
abbrev pub at_key {ℓ} : {A : Type ℓ} → Text → A → (Text → A) → Text → A
at_key k a f n = if text_eq n k then a else f n

abbrev pub machine_view : View Machine
machine_view = record { running = up; volumes_of = λ w n. volume_names_of (w.mounts n) }

abbrev pub named : Text → Mount
named v = record {
  guest = codes "/data";
  kind = codes "Named";
  read_only = false;
  size_mib = pos 0;
  name = v;
}

abbrev listed : Text → Types.Sandbox
listed n = record { name = n; image = []; status = codes "Running"; created_at = [] }

abbrev detail : Text → List Mount → Types.SandboxDetail
detail n ms = record {
  name = n;
  status = codes "Running";
  created_at = [];
  updated_at = [];
  image = [];
  cpus = pos 1;
  memory_mib = pos 0;
  workdir = [];
  env = [];
  mounts = ms;
}

abbrev booted : Text → List Mount → Machine → Machine
booted n ms w = record { names = n ∷ w.names; mounts = at_key n ms w.mounts }

abbrev down : Text → Machine → Machine
down n w = record w { names = without n w.names }

unfoldable pub boot : Text → Option VolumeMount → Machine → Result Error (Unit {0}) × Machine
boot n none w = (ok tt, booted n [] w)
boot n (some v) w =
    if is_empty v.name
    then (err (classified volume_not_found v.name), w)
    else (ok tt, booted n (named v.name ∷ []) w)

unfoldable pub start : Text → Machine → Result Error (Unit {0}) × Machine
start n w =
    if up w n
    then (err (other (codes "already running")), w)
    else (ok tt, record w { names = n ∷ w.names })

unfoldable pub halt : Text → Machine → Result Error (Unit {0}) × Machine
halt n w = if up w n then (ok tt, down n w) else (err (classified sandbox_not_found n), w)

unfoldable pub machine : {F : Type 0} → MsbClient Machine F
machine = record {
  list = λ w. (ok (map listed w.names), w);
  inspect = λ n w. (ok (detail n (w.mounts n)), w);
  create = λ o w. boot o.name o.volume w;
  start = start;
  stop = halt;
  rm = halt;
  exec = λ n argv w. (err canceled, w);
  logs = λ n o w. (err canceled, w);
  metrics = λ n w. (err canceled, w);
  volume_list = λ w. (ok [], w);
  volume_create = λ n s w. (ok tt, w);
  volume_rm = λ n w. (ok tt, w);
  snapshot_list = λ w. (ok [], w);
  snapshot_create = λ a b l f w. (ok tt, w);
  snapshot_rm = λ n w. (ok tt, w);
}
