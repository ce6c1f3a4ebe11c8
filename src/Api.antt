-- ===== src/Api.antt =====
-- internal/api/api.go: the public response types and the mapping of the adapter's types onto them.
use msb_manager.Prelude.{Text, Bool, Option, List, [], ◌∷◌, ◌++◌, ℤ, Map}
use msb_manager.Msb.Types

pub record SandboxSummary : Type 0 where
  pub name : Text
  pub image : Text
  pub status : Text
  pub created_at : Text

pub record Mount : Type 0 where
  pub guest : Text
  pub kind : Text
  pub read_only : Bool
  pub size_mib : ℤ
  pub name : Text

pub record SandboxDetail : Type 0 where
  pub name : Text
  pub status : Text
  pub created_at : Text
  pub updated_at : Text
  pub image : Text
  pub cpus : ℤ
  pub memory_mib : ℤ
  pub workdir : Text
  pub env : Map Text
  pub mounts : List Mount

pub record Snapshot : Type 0 where
  pub name : Text
  pub digest : Text
  pub image_ref : Text
  pub format : Text
  pub created_at : Text
  pub artifact_path : Text
  pub parent_digest : Option Text
  pub size_bytes : ℤ

pub record Metrics (F : Type 0) : Type 0 where
  pub name : Text
  pub cpu_percent : F
  pub memory_bytes : ℤ
  pub memory_limit_bytes : ℤ
  pub disk_read_bytes : ℤ
  pub disk_write_bytes : ℤ
  pub net_rx_bytes : ℤ
  pub net_tx_bytes : ℤ
  pub uptime_secs : F
  pub timestamp : Text

pub record ExecResult : Type 0 where
  pub stdout : Text
  pub stderr : Text
  pub exit_code : ℤ

pub record Volume : Type 0 where
  pub name : Text
  pub quota_mib : ℤ
  pub used_bytes : ℤ
  pub created_at : Text

-- VolumeStatusCreated, VolumeStatusExists, VolumeStatusError
pub data VolumeStatus : Type 0 where
  created exists error : VolumeStatus

-- NewSandboxSummary
unfoldable pub new_sandbox_summary : Types.Sandbox → SandboxSummary
new_sandbox_summary s = record {
  name = s.name;
  image = s.image;
  status = s.status;
  created_at = s.created_at;
}

-- the loop of NewSandboxSummaries, and of the other slices below
unfoldable pub append_each {ℓ κ} : {A : Type ℓ} {B : Type κ} → (A → B) → List A → List B → List B
append_each f [] out = out
append_each f (x ∷ xs) out = append_each f xs (out ++ f x ∷ [])

-- NewSandboxSummaries
unfoldable pub new_sandbox_summaries : List Types.Sandbox → List SandboxSummary
unfolding append_each
new_sandbox_summaries list = append_each new_sandbox_summary list []

unfoldable pub new_mount : Types.Mount → Mount
new_mount m = record {
  guest = m.guest;
  kind = m.kind;
  read_only = m.read_only;
  size_mib = m.size_mib;
  name = m.name;
}

-- NewSandboxDetail. A nil and an empty slice of mounts are both left out of the JSON.
unfoldable pub new_sandbox_detail : Types.SandboxDetail → SandboxDetail
unfolding append_each
new_sandbox_detail d = record {
  name = d.name;
  status = d.status;
  created_at = d.created_at;
  updated_at = d.updated_at;
  image = d.image;
  cpus = d.cpus;
  memory_mib = d.memory_mib;
  workdir = d.workdir;
  env = d.env;
  mounts = append_each new_mount d.mounts [];
}

-- NewSnapshot
unfoldable pub new_snapshot : Types.Snapshot → Snapshot
new_snapshot s = record {
  name = s.name;
  digest = s.digest;
  image_ref = s.image_ref;
  format = s.format;
  created_at = s.created_at;
  artifact_path = s.artifact_path;
  parent_digest = s.parent_digest;
  size_bytes = s.size_bytes;
}

-- NewSnapshots
unfoldable pub new_snapshots : List Types.Snapshot → List Snapshot
unfolding append_each
new_snapshots list = append_each new_snapshot list []

-- NewMetrics
unfoldable pub new_metrics : {F : Type 0} → Types.Metrics F → Metrics F
new_metrics m = record {
  name = m.name;
  cpu_percent = m.cpu_percent;
  memory_bytes = m.memory_bytes;
  memory_limit_bytes = m.memory_limit_bytes;
  disk_read_bytes = m.disk_read_bytes;
  disk_write_bytes = m.disk_write_bytes;
  net_rx_bytes = m.net_rx_bytes;
  net_tx_bytes = m.net_tx_bytes;
  uptime_secs = m.uptime_secs;
  timestamp = m.timestamp;
}

-- NewExecResult
unfoldable pub new_exec_result : Types.ExecResult → ExecResult
new_exec_result r = record { stdout = r.stdout; stderr = r.stderr; exit_code = r.exit_code }

-- NewVolume
unfoldable pub new_volume : Types.Volume → Volume
new_volume v = record {
  name = v.name;
  quota_mib = v.quota_mib;
  used_bytes = v.used_bytes;
  created_at = v.created_at;
}

-- NewVolumes
unfoldable pub new_volumes : List Types.Volume → List Volume
unfolding append_each
new_volumes list = append_each new_volume list []
