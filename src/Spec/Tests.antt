-- ===== src/Spec/Tests.antt =====
-- the theorem on Validate, at a spec with one of each.
use msb_manager.Prelude.{
  Text, false, has_prefix, contains_byte, contains_any, refl, codes, List, [], ◌∷◌, some, ok, pos,
  ◌≡◌, ◌↔◌,
}
use msb_manager.Msb.Args.{sorted_keys, sort_texts, insert_sorted, build_create_args}
use msb_manager.Msb.Validate.{valid_name, valid_image, valid_env_key}
use msb_manager.Spec.{
  Spec, validate, check_scalars, check_volume, check_env_keys, check_ports, check_ssh_keys,
  check_secrets, to_create_opts,
}
use msb_manager.Msb.Args.Flagged.{is_dashed}
use msb_manager.Spec.Flags.{Flagged, create_line, create_args-Flagged}
use msb_manager.Spec.Valid.{validate_iff}
use msb_manager.Spec.Rules.{IsValid}

abbrev full : Spec
full = record {
  name = codes "dev";
  image = codes "alpine:3";
  snapshot = [];
  cpus = pos 2;
  memory = pos 1024;
  volume = some (record { name = codes "data"; mount = codes "/data" });
  env = (codes "TZ", codes "UTC") ∷ [];
  ports = record { host = pos 8080; guest = pos 80 } ∷ [];
  secrets = record { key = codes "TOKEN"; value = codes "s3cret"; host = codes "api.test" } ∷ [];
  ssh_keys = codes "ssh-ed25519 AAAA me" ∷ [];
}

validate_iff_example : (validate full ≡ ok tt) ↔ IsValid full
validate_iff_example = validate_iff full

full_validates : validate full ≡ ok tt
unfolding validate check_scalars check_volume check_env_keys check_ports check_ssh_keys
    check_secrets valid_name valid_image valid_env_key sorted_keys sort_texts insert_sorted
    has_prefix contains_byte contains_any
full_validates = refl

create_args-Flagged_example :
    (args : List Text) × (build_create_args (to_create_opts full) ≡ create_line full args)
    × Flagged args
    × (is_dashed full.name ≡ false)
    × (is_dashed full.snapshot ≡ false)
create_args-Flagged_example = create_args-Flagged full full_validates
