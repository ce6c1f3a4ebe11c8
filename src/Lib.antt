-- ===== src/Lib.antt =====
-- msb-manager: a control plane over HTTP for the `msb` command line, which runs microVM sandboxes.
-- A request reaches a handler, the handler validates it, claims volumes in an in-memory lock, has
-- the adapter run `msb` as a child process, and maps the result to a response. The promise behind
-- it is that no volume is ever mounted by two running sandboxes.
--
-- The parts and the files that model them (paths from the repository's root):
--   Lock           internal/lock/volume.go. `Held` is VolumeLock.held; acquire_many, release,
--                  release_volumes, holder and reconcile are the methods. The mutex makes each one
--                  atomic step. Lock/Laws: each method at every volume; Lock/Claims: AcquireMany and
--                  its roll-back; Lock/Isolation: steps for other sandboxes in any order;
--                  Lock/Contract: the promise of the lock as a state machine on owners.
--   Spec           internal/spec/spec.go: Validate check by check, ToCreateOpts. Spec/Rules: the
--                  rules without an order, compared with Validate in Spec/Valid; Spec/Flags: the
--                  command line of a valid spec.
--   Msb            internal/msb: Errors (errors.go and wrapRunErr), Types, Runner (exec_runner.go),
--                  Validate, Size, Parse, and of client.go Shell (sshKeysScript), Redact, Args (the
--                  argument lists) and Client (the methods). The directories below hold the proofs.
--   Api            internal/api/api.go: the DTOs and their mappings.
--   Server         internal/server: Sandboxes, Volumes, Snapshots, Exec, Observability (Queries: the
--                  command line of a query), Readiness, Auth, and Routes for NewWithLock. A
--                  handler is a function of the request and of `State`: the lock, the machine and
--                  the cache of /readyz. Server/Safety keeps the invariant that a running sandbox
--                  has claimed its volumes through every handler; Outcomes and Endings say what
--                  each handler does to the lock, Handover how a volume passes from one sandbox to
--                  the next; Mounting says which mounts are of volumes; Guarding is the bearer token;
--                  Interleaving runs handlers together (Alone: one that nothing interrupts);
--                  Adapter puts internal/msb in the place of the MsbClient interface, and
--                  Adapter/Laws reduces what the server assumes of it to what the msb commands do
--                  (Adapter/Commands).
--   Config         internal/config/config.go, Load.
--   Manager        cmd/msb-manager/main.go: reconcileVolumes and its retry loop. Manager/Safety joins
--                  startup and requests. Manager/Run is newHTTPServer, run and main: the
--                  configuration, the startup, the requests and the end, with Safety, Status (the
--                  end and the exit status) and Processes (with the client of internal/msb in its
--                  place). Manager/Machine is a small machine that satisfies every law assumed of
--                  msb, Manager/Command a small msb command that does so as a child process:
--                  it reads the arguments that the client builds (Parsing), makes sandboxes
--                  (Making) and writes what the client reads (Telling).
--   Ctl            cmd/msbctl: Interpolate (interpolate.go), Target (config.go, resolveTarget),
--                  Pairs (splitKeyValue and --set), Flags (parseFlags, over Go's package flag),
--                  Client and Status (client.go), Render (render.go), Commands (commands.go) and
--                  Run (run, loadConfig and the warning on cleartext).
--   Remote         msbctl and the server together: the server is the transport of msbctl.
--   Prelude        what the parts share: lists measured by native numbers, byte strings, Go's `int`
--                  by sign, association lists for maps, and a result type.
--
-- What is outside the repository is a parameter: the state `W` of the machine and what a child
-- process does to it (Spawn), encoding/json (Json, Codec), yaml.v3 (Yaml, and the reader and
-- writer of Ctl/Interpolate), crypto/sha256, time.ParseDuration, and what msbctl uses of the system
-- (Sys: the network, files, URLs and addresses), and what surrounds the server (Surroundings: its
-- environment, its signal, the requests that reach its listener, and what net/http returns at the
-- end). What the server relies on of msb is written out in MsbLaws and StartupLaws, and in
-- CommandLaws for the commands themselves.
-- MsbLaws asks that a failed Create or Start leaves no new sandbox. That holds only when the `rm -f`
-- after a failed install of the ssh keys succeeds, and when a command that is killed at its deadline
-- has not booted the sandbox already.
--
-- Server/Safety handles requests one after another. Server/Interleaving cuts the handlers for create,
-- start, stop and delete where they touch the lock or the machine, and lets them run together; the
-- other handlers change neither the lock nor what runs, and stand as moves of the machine. Its
-- safety has the condition that no two requests in flight act on one sandbox, which the server does
-- not enforce: Manager/Racing runs a start between the stop of the same sandbox and the release of
-- its claims, after which two sandboxes run with one volume.
--
-- Bounds: byte strings stand for Go strings and are unbounded; Go's `int` is an integer but where
-- the source multiplies (Msb/Size), which wraps at 64 bits. itoa has fuel `n + 1` for the number n,
-- more than its digits. The retry loop of the startup has fuel for its attempts, and ends with a
-- result once they reach the cancellation of its context. parseFlags of msbctl has fuel
-- `length args + 1`: each round takes an argument away. White space is that of ASCII, and
-- strings.ToLower is that of ASCII.
--
-- Not modelled: logging, the encoding of responses, net/http (with it the redirect of ServeMux for a
-- path that is not clean, which comes before the bearer check), the text of msbctl's messages and usage, and the units and files under deploy.
mod Prelude
pub mod Lock
pub mod Msb
pub mod Spec
pub mod Api
pub mod Server
pub mod Config
pub mod Manager
pub mod Remote
pub mod Ctl
