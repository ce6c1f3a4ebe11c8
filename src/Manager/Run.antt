-- ===== src/Manager/Run.antt =====
-- cmd/msb-manager/main.go: run and main. The process loads its configuration, seeds the lock, listens
-- and ends. net/http, the signals and the environment of the process are `Surroundings`; what stands
-- between a client and msb is the parameter `connect`, which Server/Adapter's adapter is at work.
pub mod Safety
pub mod Status
pub mod Processes
mod Tests
use msb_manager.Prelude.{
  ℕ, zero, suc, Text, Bool, true, false, Option, none, some, List, [], ◌∷◌, Result, ok, err, ℤ, pos,
  if◌then◌else◌,
}
use msb_manager.Config
use msb_manager.Config.{ConfigError, load}
use msb_manager.Config.Bounds.{write_timeout}
use msb_manager.Lock.{new}
use msb_manager.Msb.Errors.{Error}
use msb_manager.Msb.Client
use msb_manager.Msb.Client.{new_client_with_timeout}
use msb_manager.Server.{MsbClient, Response, State}
use msb_manager.Server.Routes.{Request, Yaml, serve}
use msb_manager.Manager.{
  Startup, ready, abandoned, reconcile_with_retry, initial_backoff, max_backoff,
}
use msb_manager.Manager.Safety.{started}

-- http.Server, with the fields that newHTTPServer sets; durations are in nanoseconds
pub record HttpServer (W F : Type 0) : Type 0 where
  pub addr : Text
  pub handler : Request → State W → Response F × State W
  pub read_header_timeout : ℕ
  pub read_timeout : ℕ
  pub write_timeout : ℕ
  pub idle_timeout : ℕ

-- newHTTPServer
unfoldable pub new_http_server :
    {W F : Type 0} → Text → (Request → State W → Response F × State W) → HttpServer W F
new_http_server addr handler = record {
  addr = addr;
  handler = handler;
  read_header_timeout = 5000000000;
  read_timeout = 15000000000;
  write_timeout = write_timeout;
  idle_timeout = 60000000000;
}

-- what ListenAndServe returns: http.ErrServerClosed, or another error
pub data ListenError : Type 0 where
  server_closed : ListenError
  net_error : Text → ListenError

-- which case of the select of run is taken first, and with what
pub data Ending : Type 0 where
  -- ListenAndServe has returned
  listener_ended : Option ListenError → Ending
  -- a signal: what Shutdown returns within its timeout, and then ListenAndServe
  signaled : Option Text → Option ListenError → Ending

-- what happens around the process
pub record Surroundings : Type 0 where
  pub getenv : Text → Text
  -- whether the signal comes during a wait of the startup, by its number and length
  pub stops : ℕ → ℕ → Bool
  -- the requests that reach the listener, those that are drained at the end included
  pub requests : List Request
  pub ending : Ending

-- the error of run
pub data Failure : Type 0 where
  bad_config : ConfigError → Failure
  -- wraps the error of the context
  startup_abandoned : Error → Failure
  listen_failed : Text → Failure
  shutdown_failed : Text → Failure

-- what the goroutine of the listener sends on listenErr
unfoldable pub listen_err : Option ListenError → Option Failure
listen_err none = none
listen_err (some server_closed) = none
listen_err (some (net_error e)) = some (listen_failed e)

-- the end of run, from the select on
unfoldable pub await_end : Ending → Option Failure
await_end (listener_ended e) = listen_err e
await_end (signaled (some e) r) = some (shutdown_failed e)
await_end (signaled none r) = listen_err r

-- errors.Is(err, context.Canceled)
unfoldable pub is_canceled : Failure → Bool
is_canceled (startup_abandoned e) = true
is_canceled _ = false

-- the status with which main ends
unfoldable pub exit_status : Option Failure → ℕ
exit_status none = 0
exit_status (some e) = if is_canceled e then 0 else 1

-- the handler on the requests, one after another
unfoldable pub handle_all : {W F : Type 0} → HttpServer W F → List Request → State W → State W
handle_all srv [] st = st
handle_all srv (q ∷ qs) st = handle_all srv qs (srv.handler q st).1

-- the client of run: `msb.ExecRunner{}` has the zero value of MaxCaptureBytes
abbrev pub client_config : Config.Config → Client.Config
client_config cfg = new_client_with_timeout cfg.msb_path (pos 0) cfg.cmd_timeout

module _ {W F : Type 0} (connect : Client.Config → MsbClient W F) (parse_duration : Text → Option ℤ)
    (yaml : Yaml) (sha256 : Text → Text) where
  -- run from the end of the startup on: its error and the machine
  unfoldable pub after_startup : Config.Config → Surroundings → Startup W → Option Failure × W
  after_startup cfg env (abandoned e w) = (some (startup_abandoned e), w)
  after_startup cfg env (ready held w) =
      let handler = serve (connect (client_config cfg)) yaml sha256 cfg.token in
      let srv = new_http_server cfg.listen_addr handler in
      (await_end env.ending, (handle_all srv env.requests (started held w)).world)

  -- reconcileVolumesWithRetry as run calls it, with fuel for its attempts
  unfoldable pub startup : ℕ → Config.Config → Surroundings → W → Option (Startup W)
  startup attempts cfg env w =
      reconcile_with_retry (connect (client_config cfg)) env.stops max_backoff attempts 0
        initial_backoff new w

  -- run: none when the attempts are used up
  unfoldable pub run : ℕ → Surroundings → W → Option (Option Failure × W)
  run attempts env w = elim (load parse_duration env.getenv) [
    | err e ↦ some (some (bad_config e), w)
    | ok cfg ↦ elim (startup attempts cfg env w) [
      | none ↦ none
      | some s ↦ some (after_startup cfg env s)
    ]
  ]

  -- main: the status of the process and the machine
  unfoldable pub main : ℕ → Surroundings → W → Option (ℕ × W)
  main attempts env w = elim (run attempts env w) [
    | none ↦ none
    | some (failure, w') ↦ some (exit_status failure, w')
  ]
