-- ===== src/Manager/Command.antt =====
-- a small msb command that keeps the laws which internal/msb and internal/server assume of it, over
-- the small machine: it reads its arguments, makes, starts and ends sandboxes, and writes what runs.
-- It takes a volume without a colon in it, and the script of the keys needs a volume to write to.
pub mod Parsing
pub mod Telling
pub mod Making
pub mod Laws
mod Tests
use msb_manager.Prelude.{
  ℕ, zero, suc, Text, codes, Bool, true, false, ◌&&◌, ◌||◌, Option, none, some, List, [], ◌∷◌, ◌++◌,
  map, Result, ok, err, pos, text_eq, contains_byte, if◌then◌else◌, ◌==◌,
}
use msb_manager.Msb.Errors.{Error, exit_error}
use msb_manager.Msb.Types
use msb_manager.Msb.Types.{volume_names_of}
use msb_manager.Msb.Runner.{Child}
use msb_manager.Msb.Parse.{Json, SandboxDto, MountDto, InspectDto}
use msb_manager.Msb.Client.{Spawn}
use msb_manager.Manager.Machine.{Machine, up, boot, start, halt}

-- a child that writes this and ends so
abbrev pub child : List Text → List Text → Option Error → Child
child out errs failure = record {
  stdout_chunks = out;
  stderr_chunks = errs;
  failure = failure;
  deadline = false;
}

abbrev pub silent : Child
silent = child [] [] none

abbrev pub failed : Text → Child
failed why = child [] (why ∷ []) (some (exit_error (pos 1)))

-- the end of a command that has this effect
abbrev pub replied : Text → Result Error (Unit {0}) × Machine → Child × Machine
replied why (ok a, w) = (silent, w)
replied why (err e, w) = (failed why, w)

-- the value of "-v", among flags with a value each
unfoldable pub volume_in : List Text → Option Text
volume_in [] = none
volume_in (flag ∷ []) = none
volume_in (flag ∷ value ∷ args) =
    let rest = volume_in args in if text_eq flag (codes "-v") then some value else rest

-- what stands before and behind the first colon
unfoldable pub before_colon : Text → Text
before_colon [] = []
before_colon (b ∷ s) = let rest = before_colon s in if b == b':' then [] else b ∷ rest

unfoldable pub after_colon : Text → Text
after_colon [] = []
after_colon (b ∷ s) = let rest = after_colon s in if b == b':' then s else rest

abbrev pub makes : Text → Option Text → Machine → Child × Machine
makes name none w = replied (codes "error: exists") (boot name none w)
makes name (some v) w =
    if contains_byte b':' (after_colon v)
    then (failed (codes "error: two colons"), w)
    else replied (codes "error: volume not found")
        (boot name (some (record { name = before_colon v; mount = after_colon v })) w)

-- msb create -n NAME FLAGS -- IMAGE
abbrev pub creates : List Text → Machine → Child × Machine
creates (n ∷ name ∷ args) w = makes name (volume_in args) w
creates args w = (failed (codes "error: usage"), w)

-- msb run -d --snapshot SNAPSHOT -n NAME FLAGS
abbrev pub runs : List Text → Machine → Child × Machine
runs (d ∷ s ∷ snapshot ∷ args) w = creates args w
runs args w = (failed (codes "error: usage"), w)

-- the last argument
unfoldable pub target : List Text → Text
target [] = []
target (a ∷ []) = a
target (a ∷ b ∷ args) = target (b ∷ args)

abbrev pub ends : Text → Machine → Child × Machine
ends name w = replied (codes "error: sandbox not found") (halt name w)

abbrev pub starts : Text → Machine → Child × Machine
starts name w = replied (codes "error: already running") (start name w)

-- the names one after another, each ended by a zero
unfoldable pub encode : List Text → Text
encode [] = []
encode (n ∷ ns) = map suc n ++ (0 ∷ encode ns)

-- the byte before the first of the names
abbrev pub push : ℕ → List Text → List Text
push b [] = []
push b (n ∷ ns) = (b ∷ n) ∷ ns

unfoldable pub decode : Text → List Text
decode [] = []
decode (zero ∷ s) = [] ∷ decode s
decode (suc b ∷ s) = push b (decode s)

abbrev has_volume : List Text → Bool
has_volume [] = false
has_volume (v ∷ vs) = true

-- msb exec NAME -- COMMAND
abbrev executes : List Text → Machine → Child
executes [] w = failed (codes "error: usage")
executes (name ∷ args) w =
    if up w name && has_volume (volume_names_of (w.mounts name))
    then silent
    else failed (codes "no volume to write to")

abbrev pub act : Text → List Text → Machine → Child × Machine
act verb args w =
    if text_eq verb (codes "create")
    then creates args w
    else if text_eq verb (codes "run")
    then runs args w
    else if text_eq verb (codes "start")
    then starts (target args) w
    else if text_eq verb (codes "stop") || text_eq verb (codes "rm")
    then ends (target args) w
    else if text_eq verb (codes "ls")
    then (child (encode w.names ∷ []) [] none, w)
    else if text_eq verb (codes "inspect")
    then (child (encode (volume_names_of (w.mounts (target args))) ∷ []) [] none, w)
    else if text_eq verb (codes "exec")
    then (executes args w, w)
    else (failed (codes "error: usage"), w)

unfoldable pub spawn : Spawn Machine
spawn ctx timeout bin [] w = (failed (codes "error: usage"), w)
spawn ctx timeout bin (verb ∷ args) w = act verb args w

abbrev pub row : Text → SandboxDto
row name = record { name = name; image = []; status = codes "Running"; created_at = [] }

abbrev pub mount_row : Text → MountDto
mount_row v = record {
  guest = codes "/data";
  read_only = false;
  size_mib = pos 0;
  kind = codes "Named";
  name = v;
}

abbrev pub sheet : List Text → InspectDto
sheet vs = record {
  name = [];
  status = codes "Running";
  created_at = [];
  updated_at = [];
  cpus = pos 1;
  memory_mib = pos 512;
  workdir = [];
  env = [];
  image = [];
  mounts = map mount_row vs;
}

-- the reader of what the command writes
abbrev pub json : Json ℕ
json = record {
  sandboxes = λ out. ok (map row (decode out));
  detail = λ out. ok (sheet (decode out));
  metrics = err;
  snapshots = λ out. ok [];
  volumes = λ out. ok [];
}
