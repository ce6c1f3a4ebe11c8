-- ===== src/Msb/Args.antt =====
-- internal/msb/client.go: the argument lists that the adapter builds for `msb`.
pub mod Sorting
pub mod Flagged
use msb_manager.Prelude.{
  ℕ, Text, codes, Bool, true, false, ◌&&◌, ◌||◌, Option, none, some, List, [], ◌∷◌, ◌++◌, map, ltb,
  ◌==◌, if◌then◌else◌, ℤ, is_pos, to_nat, itoa, itoa_int, Map, lookup, keys, is_empty,
}
use msb_manager.Msb.Types.{CreateOpts, VolumeMount, PortMapping, Secret, LogsOpts}
use msb_manager.Msb.Shell.{ssh_keys_script}

-- s <= t, byte by byte
unfoldable pub text_leb : Text → Text → Bool
text_leb [] t = true
text_leb (a ∷ s) [] = false
text_leb (a ∷ s) (b ∷ t) = ltb a b || (a == b && text_leb s t)

unfoldable pub insert_sorted : Text → List Text → List Text
insert_sorted k [] = k ∷ []
insert_sorted k (j ∷ ks) = if text_leb k j then k ∷ j ∷ ks else j ∷ insert_sorted k ks

-- sort.Strings
unfoldable pub sort_texts : List Text → List Text
sort_texts [] = []
sort_texts (k ∷ ks) = insert_sorted k (sort_texts ks)

-- sortedKeys
unfoldable pub sorted_keys : Map Text → List Text
unfolding sort_texts insert_sorted text_leb
sorted_keys m = sort_texts (keys m)

-- m[k], where a missing key reads as ""
abbrev pub or_blank : Option Text → Text
or_blank none = []
or_blank (some v) = v

-- k+"="+m[k] for each key, each behind `flag`
unfoldable pub pair_args : Text → Map Text → List Text → List Text
pair_args flag m [] = []
pair_args flag m (k ∷ ks) = flag ∷ (k ++ (b'=' ∷ or_blank (lookup k m))) ∷ pair_args flag m ks

abbrev pub volume_args : Option VolumeMount → List Text
volume_args none = []
volume_args (some v) = codes "-v" ∷ (v.name ++ (b':' ∷ v.mount)) ∷ []

unfoldable pub port_args : List PortMapping → List Text
port_args [] = []
port_args (p ∷ ps) = codes "-p" ∷ (itoa_int p.host ++ (b':' ∷ itoa_int p.guest)) ∷ port_args ps

unfoldable pub secret_args : List Secret → List Text
secret_args [] = []
secret_args (s ∷ ss) =
    codes "--secret" ∷ (s.key ++ (b'=' ∷ (s.value ++ (b'@' ∷ s.host)))) ∷ secret_args ss

abbrev pub ssh_key_script_name : Text
ssh_key_script_name = codes "install-ssh-keys"

abbrev pub script_args : List Text → List Text
script_args [] = []
script_args (k ∷ ks) =
    codes "--script-raw" ∷ (ssh_key_script_name ++ (b'=' ∷ ssh_keys_script (k ∷ ks))) ∷ []

-- strconv.Itoa(n), if n > 0
abbrev pub number_args : Text → ℤ → List Text
number_args flag n = if is_pos n then flag ∷ itoa (to_nat n) ∷ [] else []

abbrev pub verb_args : CreateOpts → List Text
verb_args opts =
    if is_empty opts.snapshot
    then codes "create" ∷ codes "-n" ∷ opts.name ∷ []
    else codes "run" ∷ codes "-d" ∷ codes "--snapshot" ∷ opts.snapshot ∷ codes "-n" ∷ opts.name ∷ []

abbrev pub image_args : CreateOpts → List Text
image_args opts = if is_empty opts.snapshot then codes "--" ∷ opts.image ∷ [] else []

-- the options between the verb and the image
unfoldable pub option_args : CreateOpts → List Text
unfolding sorted_keys pair_args port_args secret_args
option_args opts =
    number_args (codes "-c") opts.cpus
    ++ (number_args (codes "-m") opts.memory_mib
        ++ (volume_args opts.volume
            ++ (pair_args (codes "-e") opts.env (sorted_keys opts.env)
                ++ (port_args opts.ports
                    ++ (secret_args opts.secrets ++ script_args opts.ssh_keys)))))

-- buildCreateArgs
unfoldable pub build_create_args : CreateOpts → List Text
unfolding option_args
build_create_args opts = verb_args opts ++ (option_args opts ++ image_args opts)

abbrev pub text_args : Text → Text → List Text
text_args flag v = if is_empty v then [] else flag ∷ v ∷ []

-- the arguments of Client.Logs
unfoldable pub logs_args : Text → LogsOpts → List Text
logs_args name opts =
    codes "logs"
    ∷ (number_args (codes "--tail") opts.tail
        ++ (text_args (codes "--since") opts.since
            ++ (text_args (codes "--until") opts.until
                ++ (text_args (codes "--source") opts.source
                    ++ (text_args (codes "--grep") opts.grep
                        ++ (codes "--json" ∷ codes "--" ∷ name ∷ []))))))

-- the arguments of Client.SnapshotCreate
unfoldable pub snapshot_create_args : Text → Text → Map Text → Bool → List Text
unfolding sorted_keys pair_args
snapshot_create_args from dest labels force =
    codes "snapshot"
    ∷ codes "create"
    ∷ codes "--from"
    ∷ from
    ∷ (pair_args (codes "--label") labels (sorted_keys labels)
        ++ ((if force then codes "--force" ∷ [] else []) ++ (codes "--" ∷ dest ∷ [])))
