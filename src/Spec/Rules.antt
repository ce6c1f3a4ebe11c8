-- ===== src/Spec/Rules.antt =====
-- internal/spec/spec.go: the rule of each field of a spec.
use msb_manager.Prelude.{
  ℕ, ◌≤◌, Text, codes, Bool, true, false, Option, none, some, ℤ, pos, is_empty, has_prefix, Lacks,
  keys, All, ◌≡◌, ◌⊎◌,
}
use msb_manager.Msb.Validate.{valid_name, valid_image, valid_env_key}
use msb_manager.Spec.{Spec, Volume, PortMapping, Secret, is_abs}

abbrev pub IsPort : ℤ → Type 0
IsPort n = (m : ℕ) × (n ≡ pos m) × (1 ≤ m) × (m ≤ 65535)

abbrev pub IsNatural : ℤ → Type 0
IsNatural n = (m : ℕ) × (n ≡ pos m)

pub record IsVolume (v : Volume) : Type 0 where
  pub name : valid_name v.name ≡ true
  pub mount : is_abs v.mount ≡ true

abbrev pub VolumeOk : Option Volume → Type 0
VolumeOk none = Unit
VolumeOk (some v) = IsVolume v

-- `name` is a source and `other` is not
abbrev pub Source : (Text → Bool) → Text → Text → Type 0
Source p name other = (is_empty name ≡ false) × (p name ≡ true) × (is_empty other ≡ true)

pub record IsSecret (s : Secret) : Type 0 where
  pub key : is_empty s.key ≡ false
  pub value : is_empty s.value ≡ false
  pub host : is_empty s.host ≡ false
  pub key_dash : has_prefix s.key (codes "-") ≡ false
  pub key_equals : Lacks b'=' s.key
  pub key_at : Lacks b'@' s.key
  pub host_at : Lacks b'@' s.host
  pub value_at : Lacks b'@' s.value

pub record IsKeyLine (k : Text) : Type 0 where
  pub some_text : is_empty k ≡ false
  pub no_newline : Lacks 10 k
  pub no_nul : Lacks 0 k

pub record IsForward (p : PortMapping) : Type 0 where
  pub host : IsPort p.host
  pub guest : IsPort p.guest

pub record IsValid (s : Spec) : Type 0 where
  pub name : valid_name s.name ≡ true
  pub source : Source valid_image s.image s.snapshot ⊎ Source valid_name s.snapshot s.image
  pub cpus : IsNatural s.cpus
  pub memory : IsNatural s.memory
  pub volume : VolumeOk s.volume
  pub env : All (λ k. valid_env_key k ≡ true) (keys s.env)
  pub ports : All IsForward s.ports
  pub ssh_keys : All IsKeyLine s.ssh_keys
  pub secrets : All IsSecret s.secrets
