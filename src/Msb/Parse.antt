-- ===== src/Msb/Parse.antt =====
-- internal/msb/parse.go. The decoder of encoding/json is a parameter: what it makes of a text, at
-- the types that the source decodes into. What the source does with the decoded value is modelled.
use msb_manager.Prelude.{
  Text, Bool, List, [], ◌∷◌, map, ℤ, Map, insert, is_empty, if◌then◌else◌, Result, ok, err,
}
use msb_manager.Msb.Errors.{Error, other}
use msb_manager.Msb.Types.{Sandbox, SandboxDetail, Mount, Snapshot, Metrics, Volume}

pub record MountDto : Type 0 where
  pub guest : Text
  pub read_only : Bool
  pub size_mib : ℤ
  pub kind : Text
  pub name : Text

-- inspectDTO with its config
pub record InspectDto : Type 0 where
  pub name : Text
  pub status : Text
  pub created_at : Text
  pub updated_at : Text
  pub cpus : ℤ
  pub memory_mib : ℤ
  pub workdir : Text
  pub env : List (List Text)
  -- variant to its `reference`
  pub image : Map Text
  pub mounts : List MountDto

pub record SandboxDto : Type 0 where
  pub name : Text
  pub image : Text
  pub status : Text
  pub created_at : Text

-- json.Unmarshal at each type; the error is its message
pub record Json (F : Type 0) : Type 0 where
  pub sandboxes : Text → Result Text (List SandboxDto)
  pub detail : Text → Result Text InspectDto
  pub metrics : Text → Result Text (Metrics F)
  pub snapshots : Text → Result Text (List Snapshot)
  pub volumes : Text → Result Text (List Volume)

abbrev pub decoded {ℓ} : {A : Type ℓ} → Result Text A → Result Error A
decoded (ok a) = ok a
decoded (err m) = err (other m)

-- Sandbox(r)
unfoldable pub to_sandbox : SandboxDto → Sandbox
to_sandbox r = record {
  name = r.name;
  image = r.image;
  status = r.status;
  created_at = r.created_at;
}

abbrev all_sandboxes : Result Text (List SandboxDto) → Result Error (List Sandbox)
all_sandboxes (ok raw) = ok (map to_sandbox raw)
all_sandboxes (err m) = err (other m)

-- `if len(kv) == 2 { d.Env[kv[0]] = kv[1] }`
unfoldable pub collect_env : List (List Text) → Map Text → Map Text
collect_env [] env = env
collect_env ((k ∷ v ∷ []) ∷ kvs) env = collect_env kvs (insert k v env)
collect_env (_ ∷ kvs) env = collect_env kvs env

-- imageReference: the first variant with a reference
unfoldable pub image_reference : Map Text → Text
image_reference [] = []
image_reference ((variant, reference) ∷ rest) =
    let others = image_reference rest in if is_empty reference then others else reference

unfoldable pub to_mount : MountDto → Mount
to_mount m = record {
  guest = m.guest;
  kind = m.kind;
  read_only = m.read_only;
  size_mib = m.size_mib;
  name = m.name;
}

-- the body of parseInspect behind the decoding
unfoldable pub to_detail : InspectDto → SandboxDetail
unfolding collect_env image_reference to_mount
to_detail dto = record {
  name = dto.name;
  status = dto.status;
  created_at = dto.created_at;
  updated_at = dto.updated_at;
  image = image_reference dto.image;
  cpus = dto.cpus;
  memory_mib = dto.memory_mib;
  workdir = dto.workdir;
  env = collect_env dto.env [];
  mounts = map to_mount dto.mounts;
}

abbrev flattened : Result Text InspectDto → Result Error SandboxDetail
flattened (ok dto) = ok (to_detail dto)
flattened (err m) = err (other m)

module _ {F : Type 0} (json : Json F) where
  -- parseMetrics
  unfoldable pub parse_metrics : Text → Result Error (Metrics F)
  parse_metrics data' = decoded (json.metrics data')

  -- parseSnapshotList
  unfoldable pub parse_snapshot_list : Text → Result Error (List Snapshot)
  parse_snapshot_list data' = decoded (json.snapshots data')

  -- parseVolumeList
  unfoldable pub parse_volume_list : Text → Result Error (List Volume)
  parse_volume_list data' = decoded (json.volumes data')

  -- parseList
  unfoldable pub parse_list : Text → Result Error (List Sandbox)
  unfolding to_sandbox
  parse_list data' = all_sandboxes (json.sandboxes data')

  -- parseInspect
  unfoldable pub parse_inspect : Text → Result Error SandboxDetail
  unfolding to_detail
  parse_inspect data' = flattened (json.detail data')
