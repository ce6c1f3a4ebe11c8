-- ===== src/Spec/Flags.antt =====
-- internal/spec/spec.go with buildCreateArgs of internal/msb/client.go: no field of a valid spec can be
-- read as a flag of msb.
use msb_manager.Prelude.{
  Text, codes, true, false, Option, none, some, List, [], ◌∷◌, ◌++◌, map, All, has_prefix, is_empty,
  text_eq, if◌then◌else◌, itoa, nonempty-itoa, Map, keys, Bool-cases, inl, inr, ◌≡◌, refl, arith,
  ok,
}
use mathlib.Core.List.{append-nil}
use msb_manager.Msb.Validate.{valid_name, valid_env_key}
use msb_manager.Msb.Args.{
  sorted_keys, pair_args, volume_args, port_args, secret_args, script_args, option_args,
  build_create_args,
}
use msb_manager.Msb.Args.Flagged.{
  FlaggedBy, no_more, flag_value, is_dashed, itoa_undashed, Flagged-append, number-Flagged,
}
use msb_manager.Msb.Args.Sorting.{sorted-All}
use msb_manager.Spec.{
  Spec, Volume, PortMapping, Secret, validate, to_mount, to_port, to_secret, to_create_opts,
}
use msb_manager.Spec.Valid.{validate_iff}
use msb_manager.Spec.Rules.{IsValid, VolumeOk, IsSecret, IsForward}

abbrev pub option_flags : List Text
option_flags =
    codes "-c"
    ∷ codes "-m"
    ∷ codes "-v"
    ∷ codes "-e"
    ∷ codes "-p"
    ∷ codes "--secret"
    ∷ codes "--script-raw"
    ∷ []

-- those flags, each followed by one value that does not begin with a dash
abbrev pub Flagged : List Text → Type 0
Flagged = FlaggedBy option_flags

dashed-append : (s t : Text) → is_empty s ≡ false → is_dashed s ≡ false → is_dashed (s ++ t) ≡ false
unfolding has_prefix
dashed-append [] t e h = absurd (cc e)
dashed-append (c ∷ s) t e h = h

name_undashed : (s t : Text) → valid_name s ≡ true → is_dashed (s ++ t) ≡ false
unfolding valid_name has_prefix
name_undashed [] t h = absurd (cc h)
name_undashed (c ∷ s) t h = ground arith

key_undashed : (s t : Text) → valid_env_key s ≡ true → is_dashed (s ++ t) ≡ false
unfolding valid_env_key has_prefix
key_undashed [] t h = absurd (cc h)
key_undashed (c ∷ s) t h = ground arith

pairs-Flagged :
    (m : Map Text) (ks : List Text)
    → All (λ k. valid_env_key k ≡ true) ks
    → Flagged (pair_args (codes "-e") m ks)
unfolding pair_args text_eq
pairs-Flagged m [] a = no_more
pairs-Flagged m (k ∷ ks) a =
    flag_value (codes "-e") _ refl (key_undashed k _ a.0) (pairs-Flagged m ks a.1)

ports-Flagged : (ps : List PortMapping) → All IsForward ps → Flagged (port_args (map to_port ps))
unfolding port_args to_port text_eq
ports-Flagged [] a = no_more
ports-Flagged (p ∷ ps) a =
    let (m, e, lo, hi) = a.0.host in
    flag_value (codes "-p") _ refl
      (rw e (dashed-append (itoa m) _ (nonempty-itoa m) (itoa_undashed m))) (ports-Flagged ps a.1)

secrets-Flagged : (ss : List Secret) → All IsSecret ss → Flagged (secret_args (map to_secret ss))
unfolding secret_args to_secret text_eq
secrets-Flagged [] a = no_more
secrets-Flagged (s ∷ ss) a =
    flag_value (codes "--secret") _ refl (dashed-append s.key _ a.0.key a.0.key_dash)
      (secrets-Flagged ss a.1)

scripts-Flagged : (ks : List Text) → Flagged (script_args ks)
unfolding text_eq has_prefix
scripts-Flagged [] = no_more
scripts-Flagged (k ∷ ks) = flag_value (codes "--script-raw") _ refl refl no_more

volume-Flagged : (v : Option Volume) → VolumeOk v → Flagged (volume_args (to_mount v))
unfolding text_eq
volume-Flagged none a = no_more
volume-Flagged (some v) a = flag_value (codes "-v") _ refl (name_undashed v.name _ a.name) no_more

option_args-Flagged : (s : Spec) → IsValid s → Flagged (option_args (to_create_opts s))
unfolding option_args to_create_opts sorted_keys text_eq
option_args-Flagged s v = Flagged-append (number-Flagged (codes "-c") s.cpus refl) (
    Flagged-append (number-Flagged (codes "-m") s.memory refl) (
      Flagged-append (volume-Flagged s.volume v.volume) (
        Flagged-append (pairs-Flagged s.env _ (sorted-All _ (keys s.env) v.env)) (
          Flagged-append (ports-Flagged s.ports v.ports)
            (Flagged-append (secrets-Flagged s.secrets v.secrets) (scripts-Flagged s.ssh_keys))))))

-- the command line of a create, around its options
abbrev pub create_line : Spec → List Text → List Text
create_line s args =
    if is_empty s.snapshot
    then codes "create" ∷ codes "-n" ∷ s.name ∷ (args ++ codes "--" ∷ s.image ∷ [])
    else codes "run" ∷ codes "-d" ∷ codes "--snapshot" ∷ s.snapshot ∷ codes "-n" ∷ s.name ∷ args

create_line_lem :
    (s : Spec)
    → build_create_args (to_create_opts s) ≡ create_line s (option_args (to_create_opts s))
unfolding build_create_args to_create_opts
create_line_lem s = elim (Bool-cases (is_empty s.snapshot)) [
  | inl e ↦ rw e refl
  | inr e ↦ rw (e, append-nil (option_args (to_create_opts s))) refl
]

valid_undashed : (s : Text) → valid_name s ≡ true → is_dashed s ≡ false
unfolding valid_name has_prefix
valid_undashed [] h = refl
valid_undashed (c ∷ s) h = ground arith

empty_undashed : (s : Text) → is_empty s ≡ true → is_dashed s ≡ false
unfolding has_prefix
empty_undashed [] h = refl
empty_undashed (c ∷ s) h = absurd (cc h)

snapshot_undashed : (s : Spec) → IsValid s → is_dashed s.snapshot ≡ false
snapshot_undashed s v = elim v.source [
  | inl (n, p, e) ↦ empty_undashed s.snapshot e
  | inr (n, p, e) ↦ valid_undashed s.snapshot p
]

-- The command line that is built for a valid spec has, between its verb and its image, only flags of
-- msb, each with one value that does not begin with a dash; neither its name nor its snapshot does,
-- and its image stands behind "--". So no field of a spec is read as a flag.
pub create_args-Flagged :
    (s : Spec)
    → validate s ≡ ok tt
    → (args : List Text) × (build_create_args (to_create_opts s) ≡ create_line s args)
      × Flagged args
      × (is_dashed s.name ≡ false)
      × (is_dashed s.snapshot ≡ false)
create_args-Flagged s h =
    let v = (validate_iff s).0 h in
    (
      option_args (to_create_opts s),
      create_line_lem s,
      option_args-Flagged s v,
      valid_undashed s.name v.name,
      snapshot_undashed s v,
    )
