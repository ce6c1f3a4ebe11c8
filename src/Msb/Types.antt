-- ===== src/Msb/Types.antt =====
-- internal/msb/types.go and the parameter types of internal/msb/client.go. `F` is float64.
use msb_manager.Prelude.{
  Text, codes, Bool, Option, List, [], ◌∷◌, ◌&&◌, not, ℤ, Map, text_eq, is_empty, if◌then◌else◌,
}

pub record Sandbox : Type 0 where
  pub name : Text
  pub image : Text
  pub status : Text
  pub created_at : Text

pub record Mount : Type 0 where
  pub guest : Text
  pub kind : Text
  pub read_only : Bool
  pub size_mib : ℤ
  pub name : Text

pub record SandboxDetail : Type 0 where
  pub name : Text
  pub status : Text
  pub created_at : Text
  pub updated_at : Text
  pub image : Text
  pub cpus : ℤ
  pub memory_mib : ℤ
  pub workdir : Text
  pub env : Map Text
  pub mounts : List Mount

pub record Snapshot : Type 0 where
  pub name : Text
  pub digest : Text
  pub image_ref : Text
  pub format : Text
  pub created_at : Text
  pub artifact_path : Text
  pub parent_digest : Option Text
  pub size_bytes : ℤ

pub record Metrics (F : Type 0) : Type 0 where
  pub name : Text
  pub cpu_percent : F
  pub memory_bytes : ℤ
  pub memory_limit_bytes : ℤ
  pub disk_read_bytes : ℤ
  pub disk_write_bytes : ℤ
  pub net_rx_bytes : ℤ
  pub net_tx_bytes : ℤ
  pub uptime_secs : F
  pub timestamp : Text

pub record Volume : Type 0 where
  pub name : Text
  pub quota_mib : ℤ
  pub used_bytes : ℤ
  pub created_at : Text

pub record ExecResult : Type 0 where
  pub stdout : Text
  pub stderr : Text
  pub exit_code : ℤ

pub record VolumeMount : Type 0 where
  pub name : Text
  pub mount : Text

pub record PortMapping : Type 0 where
  pub host : ℤ
  pub guest : ℤ

pub record Secret : Type 0 where
  pub key : Text
  pub value : Text
  pub host : Text

pub record CreateOpts : Type 0 where
  pub name : Text
  pub image : Text
  pub snapshot : Text
  pub cpus : ℤ
  pub memory_mib : ℤ
  pub volume : Option VolumeMount
  pub env : Map Text
  pub ports : List PortMapping
  pub secrets : List Secret
  pub ssh_keys : List Text

pub record LogsOpts : Type 0 where
  pub tail : ℤ
  pub since : Text
  pub until : Text
  pub source : Text
  pub grep : Text

-- SandboxDetail.VolumeNames
unfoldable pub volume_names_of : List Mount → List Text
volume_names_of [] = []
volume_names_of (m ∷ ms) =
    let rest = volume_names_of ms in
    if text_eq m.kind (codes "Named") && not (is_empty m.name) then m.name ∷ rest else rest

unfoldable pub volume_names : SandboxDetail → List Text
unfolding volume_names_of
volume_names d = volume_names_of d.mounts
