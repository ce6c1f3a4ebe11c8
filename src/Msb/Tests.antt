-- ===== src/Msb/Tests.antt =====
-- the theorems on the adapter, at the commands and the output of one sandbox.
use msb_manager.Prelude.{
  ℕ, suc, ◌+◌, ◌*◌, ◌^◌, Text, codes, true, false, none, some, [], ◌∷◌, ◌++◌, map, contains_byte,
  itoa, text_eq, ok, err, pos, ◌≡◌, refl, ◌↔◌, arith,
}
use msb_manager.Msb.Errors.{exit_error}
use msb_manager.Msb.Types.{CreateOpts, Secret}
use msb_manager.Msb.Validate.{valid_name, valid_image, valid_size, valid_env_key}
use msb_manager.Msb.Validate.Regexps.{
  Matches, name_re, image_re, size_re, env_key_re, validators_iff,
}
use msb_manager.Msb.Size.{parse_size_mib, to_lower}
use msb_manager.Msb.Size.Laws.{
  gibibytes, spellings, is_spelled, parse_size_mib_exact, parse_size_mib_wraps,
}
use msb_manager.Msb.Runner.{Child}
use msb_manager.Msb.Redact.{redact_secrets}
use msb_manager.Msb.Redact.Laws.{occurs, IsScrubbable, occurs-redact_secrets}
use msb_manager.Msb.Parse.{Json}
use msb_manager.Msb.Client.{Spawn, Config, create}
use msb_manager.Msb.Client.Outcomes.{logging, CreateRun, create_error, install_error, create_runs}

abbrev hostile_key : Text
hostile_key = codes "x'; rm -rf / #$(id)"

validators_iff_example :
    ((valid_name (codes "a-1") ≡ true) ↔ Matches name_re (codes "a-1"))
    × ((valid_image (codes "a-1") ≡ true) ↔ Matches image_re (codes "a-1"))
    × ((valid_size (codes "a-1") ≡ true) ↔ Matches size_re (codes "a-1"))
    × ((valid_env_key (codes "a-1") ≡ true) ↔ Matches env_key_re (codes "a-1"))
validators_iff_example = validators_iff (codes "a-1")

gib : is_spelled (map to_lower (codes "GiB")) (spellings gibibytes) ≡ true
unfolding text_eq
gib = refl

parse_size_mib_exact_example : parse_size_mib (itoa 5 ++ codes "GiB") ≡ ok (pos (5 * 1024))
parse_size_mib_exact_example =
    parse_size_mib_exact 5 gibibytes (codes "GiB") refl gib (omega arith) (omega arith)

parse_size_mib_wraps_example :
    parse_size_mib (itoa (1 + 2 ^ 44) ++ codes "T") ≡ parse_size_mib (itoa 1 ++ codes "T")
parse_size_mib_wraps_example = parse_size_mib_wraps 1 (omega arith)

abbrev chatty : Child
chatty = record {
  stdout_chunks = codes "ab" ∷ codes "cde" ∷ [];
  stderr_chunks = codes "x" ∷ [];
  failure = none;
  deadline = false;
}

abbrev token : Secret
token = record { key = codes "TOKEN"; value = codes "s3cret"; host = codes "api.test" }

abbrev echoed : Text
echoed = codes "error: bad secret TOKEN=s3cret"

token-IsScrubbable : IsScrubbable token.value
unfolding contains_byte
token-IsScrubbable = (refl, (refl, (refl, (refl, (refl, (refl, (refl, tt)))))))

occurs-redact_secrets_example :
    occurs token.value (redact_secrets echoed ([] ++ token ∷ [])) ≡ false
occurs-redact_secrets_example = occurs-redact_secrets echoed [] token [] token-IsScrubbable

abbrev opts : CreateOpts
opts = record {
  name = codes "dev";
  image = codes "alpine";
  snapshot = [];
  cpus = pos 1;
  memory_mib = pos 0;
  volume = none;
  env = [];
  ports = [];
  secrets = [];
  ssh_keys = hostile_key ∷ [];
}

-- an msb whose calls all fail
abbrev failing : Spawn ℕ
failing ctx t bin args w = (record chatty { failure = some (exit_error (pos 1)) }, suc w)

abbrev no_json : Json ℕ
no_json = record {
  sandboxes = λ t. err t;
  detail = λ t. err t;
  metrics = λ t. err t;
  snapshots = λ t. err t;
  volumes = λ t. err t;
}

abbrev config : Config
config = record { bin = codes "msb"; timeout = pos 60000000000; max_capture_bytes = pos 0 }

create_runs_example :
    CreateRun opts
      (create_error failing no_json config opts 0).0
      (install_error failing no_json config opts (create_error failing no_json config opts 0).1)
      (create (logging failing) no_json config opts ([], 0)).0
      (create (logging failing) no_json config opts ([], 0)).1.0
create_runs_example = create_runs failing no_json config opts 0
