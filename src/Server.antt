-- ===== src/Server.antt =====
-- internal/server: what the handlers share. A handler takes the request and the server's state, and
-- gives the response and the new state.
pub mod Sandboxes
pub mod Volumes
pub mod Snapshots
pub mod Exec
pub mod Observability
pub mod Readiness
pub mod Auth
pub mod Routes
pub mod Adapter
pub mod Mounting
pub mod Outcomes
pub mod Guarding
pub mod Interleaving
pub mod Endings
pub mod Handover
pub mod Safety
mod Tests
use msb_manager.Prelude.{
  ℕ, suc, ◌*◌, Text, codes, Bool, true, false, Option, none, some, List, [], ◌∷◌, ◌++◌, take,
  length, ltb, if◌then◌else◌, ℤ, Map, Result, ok, err, ◌≡◌, refl,
}
use msb_manager.Lock.{Held, Busy}
use msb_manager.Msb.Errors.{
  Error, sandbox_not_found, sandbox_already_exists, sandbox_still_running, volume_already_exists,
  volume_not_found, snapshot_already_exists, snapshot_not_found, timeout, output_too_large,
  is_error,
}
use msb_manager.Msb.Types
use msb_manager.Msb.Size.{SizeError}
use msb_manager.Msb.Validate.{valid_name}
use msb_manager.Spec.{SpecError}
use msb_manager.Api.{
  SandboxSummary, SandboxDetail, Snapshot, Metrics, ExecResult, Volume, VolumeStatus,
}

-- MsbClient: what the handlers use of the adapter, over the state `W` of the machine
pub record MsbClient (W F : Type 0) : Type 0 where
  pub list : W → Result Error (List Types.Sandbox) × W
  pub inspect : Text → W → Result Error Types.SandboxDetail × W
  pub create : Types.CreateOpts → W → Result Error (Unit {0}) × W
  pub start : Text → W → Result Error (Unit {0}) × W
  pub stop : Text → W → Result Error (Unit {0}) × W
  pub rm : Text → W → Result Error (Unit {0}) × W
  pub exec : Text → List Text → W → Result Error Types.ExecResult × W
  pub logs : Text → Types.LogsOpts → W → Result Error Text × W
  pub metrics : Text → W → Result Error (Types.Metrics F) × W
  pub volume_list : W → Result Error (List Types.Volume) × W
  pub volume_create : Text → Text → W → Result Error (Unit {0}) × W
  pub volume_rm : Text → W → Result Error (Unit {0}) × W
  pub snapshot_list : W → Result Error (List Types.Snapshot) × W
  pub snapshot_create : Text → Text → Map Text → Bool → W → Result Error (Unit {0}) × W
  pub snapshot_rm : Text → W → Result Error (Unit {0}) × W

pub data ManifestError : Type 0 where
  no_volumes : ManifestError
  item_incomplete item_bad_name item_bad_size : ℕ → ManifestError

pub data ExecError : Type 0 where
  no_command empty_command : ExecError

-- the text under "error" in a response body: a literal, or the message of a typed error
pub data Message : Type 0 where
  text : Text → Message
  of_spec : SpecError → Message
  of_busy : Busy → Message
  volume_in_use : Text → Text → Message
  of_manifest : ManifestError → Message
  of_exec : ExecError → Message

-- the "error" of one item of a batch
pub data ItemError : Type 0 where
  no_error : ItemError
  bad_size : SizeError → ItemError
  size_differs : ℤ → ℤ → ItemError
  adapter : Text → ItemError

-- VolumeResult
pub record VolumeResult : Type 0 where
  pub name : Text
  pub size : Text
  pub status : VolumeStatus
  pub problem : ItemError

pub data Body (F : Type 0) : Type 0 where
  empty : Body F
  error_body : Message → Body F
  fields : List (Text × Text) → Body F
  sandboxes : List SandboxSummary → Body F
  sandbox : SandboxDetail → Body F
  snapshots : List Snapshot → Body F
  metrics_body : Metrics F → Body F
  exec_body : ExecResult → Body F
  volumes : List Volume → Body F
  batch : List VolumeResult → Body F
  ndjson : Text → Body F

pub record Response (F : Type 0) : Type 0 where
  pub status : ℕ
  pub body : Body F

-- readinessCache: `checked_at` is none for the zero time
pub record ReadinessCache : Type 0 where
  pub checked_at : Option ℕ
  pub last : Option Error

-- the lock, the machine, and the cache of /readyz
pub record State (W : Type 0) : Type 0 where
  pub held : Held
  pub world : W
  pub readiness : ReadinessCache

module _ {F : Type 0} where
  abbrev pub bad_request : Message → Response F
  bad_request m = record { status = 400; body = error_body m }

  abbrev pub conflict : Message → Response F
  conflict m = record { status = 409; body = error_body m }

  abbrev pub no_content : Response F
  no_content = record { status = 204; body = empty }

-- statusForAdapterError
unfoldable pub status_for_adapter_error : Text → Error → ℕ × Text
status_for_adapter_error op e =
    if is_error e sandbox_not_found
    then (404, codes "sandbox not found")
    else if is_error e sandbox_already_exists
    then (409, codes "sandbox already exists")
    else if is_error e sandbox_still_running
    then (409, codes "sandbox is still running")
    else if is_error e volume_already_exists
    then (409, codes "volume already exists")
    else if is_error e volume_not_found
    then (404, codes "volume not found")
    else if is_error e snapshot_already_exists
    then (409, codes "snapshot already exists")
    else if is_error e snapshot_not_found
    then (404, codes "snapshot not found")
    else if is_error e timeout
    then (504, codes "msb command timed out")
    else if is_error e output_too_large
    then (500, codes "command output exceeded the capture limit")
    else (500, op ++ codes " failed")

-- writeAdapterError, without its log line
unfoldable pub adapter_error : {F : Type 0} → Text → Error → Response F
adapter_error op e =
    let (status, msg) = status_for_adapter_error op e in
    record { status = status; body = error_body (text msg) }

-- the response to an adapter call: its error, or what the handler makes of its result
unfoldable pub answer {ℓ} :
    {W F : Type 0} {A : Type ℓ}
    → Text
    → Result Error A
    → (A → Response F)
    → State W
    → Response F × State W
unfolding adapter_error
answer op (err e) f st = (adapter_error op e, st)
answer op (ok a) f st = (f a, st)

pub answer-state {ℓ} :
    {W F : Type 0} {A : Type ℓ} (op : Text) (r : Result Error A) (f : A → Response F) (st : State W)
    → (answer op r f st).1 ≡ st
unfolding answer
answer-state op (ok a) f st = refl
answer-state op (err e) f st = refl

-- maxSpecBytes
abbrev pub max_spec_bytes : ℕ
max_spec_bytes = 64 * 1024

-- io.ReadAll over io.LimitReader, and the test on its length; no body is a failed read
unfoldable pub read_body : {F : Type 0} → Text → Option Text → Result (Response F) Text
read_body too_large none = err (bad_request (text (codes "could not read body")))
read_body too_large (some sent) =
    let body = take (suc max_spec_bytes) sent in
    if ltb max_spec_bytes (length body)
    then err (record { status = 413; body = error_body (text too_large) })
    else ok body

-- validPathName, and the response that it writes
unfoldable pub check_path_name : {F : Type 0} → Text → Result (Response F) (Unit {0})
check_path_name name =
    if valid_name name then ok tt else err (bad_request (text (codes "invalid name")))

-- the response of an early `return`, with the state as it is
abbrev pub or_respond {ℓ} :
    {W F : Type 0} {A : Type ℓ}
    → Result (Response F) A
    → State W
    → (A → State W → Response F × State W)
    → Response F × State W
or_respond (ok a) st k = k a st
or_respond (err r) st k = (r, st)
