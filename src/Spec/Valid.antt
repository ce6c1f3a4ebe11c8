-- ===== src/Spec/Valid.antt =====
-- internal/spec/spec.go: what a spec has to be, said without the order of the checks.
use msb_manager.Prelude.{
  ℕ, suc, Text, codes, Bool, true, false, Option, none, some, List, [], ◌∷◌, ℤ, pos, negsuc, is_neg,
  ok, err, ◌>>◌, reject_if, is_empty, has_prefix, contains_byte, contains_any, contains_any_two,
  Lacks, contains_byte-Lacks, Lacks-contains_byte, keys, All, ◌≡◌, refl, ◌↔◌, ◌⊎◌, inl, inr, arith,
}
use msb_manager.Msb.Validate.{valid_name, valid_image, valid_env_key}
use msb_manager.Msb.Args.{sorted_keys}
use msb_manager.Msb.Args.Sorting.{All-sorted, sorted-All}
use msb_manager.Spec.{
  Spec, Volume, PortMapping, Secret, SpecError, Check, out_of_range, is_abs, check_volume,
  check_env_keys, check_ports, check_ssh_keys, check_secrets, check_scalars, validate,
}
use msb_manager.Spec.Rules.{
  IsPort, IsNatural, VolumeOk, Source, IsSecret, IsKeyLine, IsForward, IsValid,
}

reject_if-ok :
    (b : Bool) (e : SpecError) (k : Check)
    → (reject_if b e >> k) ≡ ok tt
    → (b ≡ false) × (k ≡ ok tt)
reject_if-ok true e k h = cc
reject_if-ok false e k h = (refl, h)

then-ok : (m k : Check) → (m >> k) ≡ ok tt → (m ≡ ok tt) × (k ≡ ok tt)
then-ok (ok t) k h = (refl, h)
then-ok (err e) k h = cc

check_volume-ok : (v : Option Volume) → check_volume v ≡ ok tt → VolumeOk v
unfolding check_volume
check_volume-ok none h = tt
check_volume-ok (some v) h = ground arith

in_range : (n : ℤ) → out_of_range n ≡ false → IsPort n
in_range (pos m) h = (m, refl, ground arith, ground arith)
in_range (negsuc m) h = cc

natural : (n : ℤ) → is_neg n ≡ false → IsNatural n
natural (pos m) h = (m, refl)
natural (negsuc m) h = cc

not_neg : (n : ℤ) → IsNatural n → is_neg n ≡ false
not_neg n (m, e) = rw e

not_out : (n : ℤ) → IsPort n → out_of_range n ≡ false
not_out n (m, e, lo, hi) = rw e (ground arith)

Lacks-both : (a b : ℕ) (s : Text) → contains_any (a ∷ b ∷ []) s ≡ false → Lacks a s × Lacks b s
Lacks-both a b s h = (
  contains_byte-Lacks a s (ground (arith, contains_any_two a b s)),
  contains_byte-Lacks b s (ground (arith, contains_any_two a b s)),
)

contains_neither :
    (a b : ℕ) (s : Text) → Lacks a s → Lacks b s → contains_any (a ∷ b ∷ []) s ≡ false
contains_neither a b s la lb =
    ground (arith, contains_any_two a b s, Lacks-contains_byte a s la, Lacks-contains_byte b s lb)

check_ports-ok : (i : ℕ) (ps : List PortMapping) → check_ports i ps ≡ ok tt → All IsForward ps
unfolding check_ports
check_ports-ok i [] h = tt
check_ports-ok i (p ∷ ps) h =
    let (a, h1) = reject_if-ok (out_of_range p.host) _ _ h in
    let (b, h2) = reject_if-ok (out_of_range p.guest) _ _ h1 in
    (record { host = in_range p.host a; guest = in_range p.guest b }, check_ports-ok (suc i) ps h2)

check_ssh_keys-ok : (i : ℕ) (ks : List Text) → check_ssh_keys i ks ≡ ok tt → All IsKeyLine ks
unfolding check_ssh_keys
check_ssh_keys-ok i [] h = tt
check_ssh_keys-ok i (k ∷ ks) h =
    let (a, h1) = reject_if-ok (is_empty k) _ _ h in
    let (b, h2) = reject_if-ok (contains_any (10 ∷ 0 ∷ []) k) _ _ h1 in
    let (newline, nul) = Lacks-both 10 0 k b in
    (record { some_text = a; no_newline = newline; no_nul = nul }, check_ssh_keys-ok (suc i) ks h2)

check_secrets-ok : (i : ℕ) (ss : List Secret) → check_secrets i ss ≡ ok tt → All IsSecret ss
unfolding check_secrets
check_secrets-ok i [] h = tt
check_secrets-ok i (s ∷ ss) h =
    let (a, h1) = reject_if-ok (is_empty s.key) _ _ h in
    let (b, h2) = reject_if-ok (is_empty s.value) _ _ h1 in
    let (c, h3) = reject_if-ok (is_empty s.host) _ _ h2 in
    let (d, h4) = reject_if-ok (has_prefix s.key (codes "-")) _ _ h3 in
    let (e, h5) = reject_if-ok (contains_any (codes "=@") s.key) _ _ h4 in
    let (f, h6) = reject_if-ok (contains_byte b'@' s.host) _ _ h5 in
    let (g, h7) = reject_if-ok (contains_byte b'@' s.value) _ _ h6 in
    let (equals, at) = Lacks-both b'=' b'@' s.key e in
    (
      record {
        key = a;
        value = b;
        host = c;
        key_dash = d;
        key_equals = equals;
        key_at = at;
        host_at = contains_byte-Lacks b'@' s.host f;
        value_at = contains_byte-Lacks b'@' s.value g;
      },
      check_secrets-ok (suc i) ss h7,
    )

scalar_tests :
    (s : Spec)
    → check_scalars s ≡ ok tt
    → (valid_name s.name ≡ true)
      × (Source valid_image s.image s.snapshot ⊎ Source valid_name s.snapshot s.image)
      × (is_neg s.cpus ≡ false)
      × (is_neg s.memory ≡ false)
unfolding check_scalars
scalar_tests s h = ground arith

check_scalars-ok :
    (s : Spec)
    → check_scalars s ≡ ok tt
    → (valid_name s.name ≡ true)
      × (Source valid_image s.image s.snapshot ⊎ Source valid_name s.snapshot s.image)
      × IsNatural s.cpus
      × IsNatural s.memory
check_scalars-ok s h =
    let (n, src, cpus, memory) = scalar_tests s h in
    (n, src, natural s.cpus cpus, natural s.memory memory)

check_env_keys-ok :
    (ks : List Text) → check_env_keys ks ≡ ok tt → All (λ k. valid_env_key k ≡ true) ks
unfolding check_env_keys
check_env_keys-ok [] h = tt
check_env_keys-ok (k ∷ ks) h = ground (arith, check_env_keys-ok ks)

name_not_empty : (s : Text) → valid_name s ≡ true → is_empty s ≡ false
unfolding valid_name
name_not_empty [] h = cc
name_not_empty (c ∷ s) h = refl

abs_not_empty : (p : Text) → is_abs p ≡ true → is_empty p ≡ false
unfolding has_prefix
abs_not_empty [] h = cc
abs_not_empty (c ∷ p) h = refl

volume_passes : (v : Option Volume) → VolumeOk v → check_volume v ≡ ok tt
unfolding check_volume
volume_passes none h = refl
volume_passes (some v) h =
    ground (arith, name_not_empty v.name h.name, abs_not_empty v.mount h.mount)

env_passes : (ks : List Text) → All (λ k. valid_env_key k ≡ true) ks → check_env_keys ks ≡ ok tt
unfolding check_env_keys
env_passes [] h = refl
env_passes (k ∷ ks) h = ground (arith, env_passes ks h.1)

ports_pass : (i : ℕ) (ps : List PortMapping) → All IsForward ps → check_ports i ps ≡ ok tt
unfolding check_ports
ports_pass i [] h = refl
ports_pass i (p ∷ ps) h =
    rw (not_out p.host h.0.host, not_out p.guest h.0.guest) (ports_pass (suc i) ps h.1)

ssh_keys_pass : (i : ℕ) (ks : List Text) → All IsKeyLine ks → check_ssh_keys i ks ≡ ok tt
unfolding check_ssh_keys
ssh_keys_pass i [] h = refl
ssh_keys_pass i (k ∷ ks) h =
    rw (h.0.some_text, contains_neither 10 0 k h.0.no_newline h.0.no_nul)
      (ssh_keys_pass (suc i) ks h.1)

secrets_pass : (i : ℕ) (ss : List Secret) → All IsSecret ss → check_secrets i ss ≡ ok tt
unfolding check_secrets
secrets_pass i [] h = refl
secrets_pass i (s ∷ ss) h =
    rw
      (
        h.0.key,
        h.0.value,
        h.0.host,
        h.0.key_dash,
        contains_neither b'=' b'@' s.key h.0.key_equals h.0.key_at,
        Lacks-contains_byte b'@' s.host h.0.host_at,
        Lacks-contains_byte b'@' s.value h.0.value_at,
      )
      (secrets_pass (suc i) ss h.1)

scalars_pass : (s : Spec) → IsValid s → check_scalars s ≡ ok tt
unfolding check_scalars
scalars_pass s v = elim v.source [
  | inl image ↦
      ground (arith, name_not_empty s.name v.name, not_neg s.cpus v.cpus, not_neg s.memory v.memory)
  | inr snapshot ↦
      ground (arith, name_not_empty s.name v.name, not_neg s.cpus v.cpus, not_neg s.memory v.memory)
]

abbrev EnvKey : Text → Type 0
EnvKey k = valid_env_key k ≡ true

validate-ok : (s : Spec) → validate s ≡ ok tt → IsValid s
unfolding validate sorted_keys
validate-ok s h =
    let (a, h1) = then-ok (check_scalars s) _ h in
    let (b, h2) = then-ok (check_volume s.volume) _ h1 in
    let (c, h3) = then-ok (check_env_keys (sorted_keys s.env)) _ h2 in
    let (d, h4) = then-ok (check_ports 0 s.ports) _ h3 in
    let (e, f) = then-ok (check_ssh_keys 0 s.ssh_keys) _ h4 in
    let (n, src, cpus, memory) = check_scalars-ok s a in
    record {
      name = n;
      source = src;
      cpus = cpus;
      memory = memory;
      volume = check_volume-ok s.volume b;
      env = All-sorted EnvKey (keys s.env) (check_env_keys-ok (sorted_keys s.env) c);
      ports = check_ports-ok 0 s.ports d;
      ssh_keys = check_ssh_keys-ok 0 s.ssh_keys e;
      secrets = check_secrets-ok 0 s.secrets f;
    }

passes : (s : Spec) → IsValid s → validate s ≡ ok tt
unfolding validate sorted_keys
passes s v =
    rw
      (
        scalars_pass s v,
        volume_passes s.volume v.volume,
        env_passes (sorted_keys s.env) (sorted-All EnvKey (keys s.env) v.env),
        ports_pass 0 s.ports v.ports,
        ssh_keys_pass 0 s.ssh_keys v.ssh_keys,
      )
      (secrets_pass 0 s.secrets v.secrets)

-- Validate accepts exactly the specs that satisfy every field's rule: a valid name, one source of
-- image and snapshot in its own shape, no negative limit, a well-formed volume if there is one,
-- valid env keys, ports in 1-65535, one-line ssh keys, and secrets with no separator in the wrong
-- place.
pub validate_iff : (s : Spec) → (validate s ≡ ok tt) ↔ IsValid s
validate_iff s = (validate-ok s, passes s)
