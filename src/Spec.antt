-- ===== src/Spec.antt =====
-- internal/spec/spec.go: the create-sandbox spec, its validation and its mapping onto the adapter.
pub mod Rules
pub mod Valid
pub mod Flags
mod Tests
use msb_manager.Prelude.{
  ℕ, suc, Text, codes, Bool, true, false, not, ◌&&◌, ◌||◌, Option, none, some, List, [], ◌∷◌, map,
  ℤ, pos, negsuc, is_neg, leb, Map, keys, Result, ok, err, ◌>>=◌, ◌>>◌, reject_if, is_empty,
  has_prefix, contains_byte, contains_any,
}
use msb_manager.Msb.Types.{CreateOpts, VolumeMount}
use msb_manager.Msb.Types
use msb_manager.Msb.Validate.{valid_name, valid_image, valid_env_key}
use msb_manager.Msb.Args.{sorted_keys}

pub record Volume : Type 0 where
  pub name : Text
  pub mount : Text

pub record PortMapping : Type 0 where
  pub host : ℤ
  pub guest : ℤ

pub record Secret : Type 0 where
  pub key : Text
  pub value : Text
  pub host : Text

pub record Spec : Type 0 where
  pub name : Text
  pub image : Text
  pub snapshot : Text
  pub cpus : ℤ
  pub memory : ℤ
  pub volume : Option Volume
  pub env : Map Text
  pub ports : List PortMapping
  pub secrets : List Secret
  pub ssh_keys : List Text

-- one constructor for each message of Validate, with what the message quotes
pub data SpecError : Type 0 where
  name_required no_source two_sources : SpecError
  bad_name bad_image bad_snapshot : Text → SpecError
  negative_cpus negative_memory : ℤ → SpecError
  volume_name_required volume_mount_required : SpecError
  bad_volume_name relative_mount : Text → SpecError
  bad_env_key : Text → SpecError
  host_port_range guest_port_range : ℕ → ℤ → SpecError
  empty_ssh_key multiline_ssh_key : ℕ → SpecError
  secret_key_required secret_value_required secret_host_required : ℕ → SpecError
  secret_key_dash secret_key_separator secret_host_at secret_value_at : ℕ → SpecError

abbrev pub Check : Type 0
Check = Result SpecError (Unit {0})

-- n < 1 || n > 65535
abbrev pub out_of_range : ℤ → Bool
out_of_range (pos n) = not (leb 1 n && leb n 65535)
out_of_range (negsuc n) = true

-- path.IsAbs
abbrev pub is_abs : Text → Bool
is_abs p = has_prefix p (codes "/")

unfoldable pub check_volume : Option Volume → Check
check_volume none = ok tt
check_volume (some v) = do
  reject_if (is_empty v.name) volume_name_required
  reject_if (not (valid_name v.name)) (bad_volume_name v.name)
  reject_if (is_empty v.mount) volume_mount_required
  reject_if (not (is_abs v.mount)) (relative_mount v.mount)

unfoldable pub check_env_keys : List Text → Check
check_env_keys [] = ok tt
check_env_keys (k ∷ ks) = do reject_if (not (valid_env_key k)) (bad_env_key k); check_env_keys ks

unfoldable pub check_ports : ℕ → List PortMapping → Check
check_ports i [] = ok tt
check_ports i (p ∷ ps) = do
  reject_if (out_of_range p.host) (host_port_range i p.host)
  reject_if (out_of_range p.guest) (guest_port_range i p.guest)
  check_ports (suc i) ps

unfoldable pub check_ssh_keys : ℕ → List Text → Check
check_ssh_keys i [] = ok tt
check_ssh_keys i (k ∷ ks) = do
  reject_if (is_empty k) (empty_ssh_key i)
  reject_if (contains_any (10 ∷ 0 ∷ []) k) (multiline_ssh_key i)
  check_ssh_keys (suc i) ks

unfoldable pub check_secrets : ℕ → List Secret → Check
check_secrets i [] = ok tt
check_secrets i (s ∷ ss) = do
  reject_if (is_empty s.key) (secret_key_required i)
  reject_if (is_empty s.value) (secret_value_required i)
  reject_if (is_empty s.host) (secret_host_required i)
  reject_if (has_prefix s.key (codes "-")) (secret_key_dash i)
  reject_if (contains_any (codes "=@") s.key) (secret_key_separator i)
  reject_if (contains_byte b'@' s.host) (secret_host_at i)
  reject_if (contains_byte b'@' s.value) (secret_value_at i)
  check_secrets (suc i) ss

-- Spec.Validate up to the volume
unfoldable pub check_scalars : Spec → Check
check_scalars s = do
  reject_if (is_empty s.name) name_required
  reject_if (not (valid_name s.name)) (bad_name s.name)
  reject_if (is_empty s.image && is_empty s.snapshot) no_source
  reject_if (not (is_empty s.image) && not (is_empty s.snapshot)) two_sources
  reject_if (not (is_empty s.image) && not (valid_image s.image)) (bad_image s.image)
  reject_if (not (is_empty s.snapshot) && not (valid_name s.snapshot)) (bad_snapshot s.snapshot)
  reject_if (is_neg s.cpus) (negative_cpus s.cpus)
  reject_if (is_neg s.memory) (negative_memory s.memory)

-- Spec.Validate
unfoldable pub validate : Spec → Check
validate s = do
  check_scalars s
  check_volume s.volume
  check_env_keys (sorted_keys s.env)
  check_ports 0 s.ports
  check_ssh_keys 0 s.ssh_keys
  check_secrets 0 s.secrets

abbrev pub to_mount : Option Volume → Option VolumeMount
to_mount none = none
to_mount (some v) = some (record { name = v.name; mount = v.mount })

unfoldable pub to_port : PortMapping → Types.PortMapping
to_port p = record { host = p.host; guest = p.guest }

unfoldable pub to_secret : Secret → Types.Secret
to_secret s = record { key = s.key; value = s.value; host = s.host }

-- Spec.ToCreateOpts
unfoldable pub to_create_opts : Spec → CreateOpts
unfolding to_port to_secret
to_create_opts s = record {
  name = s.name;
  image = s.image;
  snapshot = s.snapshot;
  cpus = s.cpus;
  memory_mib = s.memory;
  volume = to_mount s.volume;
  env = s.env;
  ports = map to_port s.ports;
  secrets = map to_secret s.secrets;
  ssh_keys = s.ssh_keys;
}
