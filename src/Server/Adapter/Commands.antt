-- ===== src/Server/Adapter/Commands.antt =====
-- internal/msb/client.go: what the client relies on of the msb command.
use msb_manager.Prelude.{Text, codes, true, false, Option, none, some, List, [], ◌∷◌, ok, ◌≡◌, ◌⊎◌}
use msb_manager.Msb.Errors.{Error, sandbox_not_found, is_error, wrap_run_err}
use msb_manager.Msb.Types
use msb_manager.Msb.Types.{volume_names, CreateOpts}
use msb_manager.Msb.Runner.{Outcome}
use msb_manager.Msb.Args.{build_create_args}
use msb_manager.Msb.Parse.{Json}
use msb_manager.Msb.Client
use msb_manager.Msb.Client.{Spawn, Config, Context, request, detached, run, as_result}
use msb_manager.Server.Safety.{View, Same, Booted, Ended, mounted}

-- the first words of the commands that start and stop nothing
pub data IsRead : List Text → Type 0 where
  ls : (args : List Text) → IsRead (codes "ls" ∷ args)
  inspects : (args : List Text) → IsRead (codes "inspect" ∷ args)
  execs : (args : List Text) → IsRead (codes "exec" ∷ args)
  logs : (args : List Text) → IsRead (codes "logs" ∷ args)
  metrics : (args : List Text) → IsRead (codes "metrics" ∷ args)
  volumes : (args : List Text) → IsRead (codes "volume" ∷ args)
  snapshots : (args : List Text) → IsRead (codes "snapshot" ∷ args)

abbrev pub on : Text → Text → List Text
on verb name = verb ∷ codes "--" ∷ name ∷ []

-- the removal of a half-made sandbox
abbrev pub rollback_args : Text → List Text
rollback_args name = codes "rm" ∷ codes "-f" ∷ codes "--" ∷ name ∷ []

-- the error of a command, as the client tells it
abbrev pub told : Outcome → Option Error
told o = wrap_run_err o.stderr o.failure

-- what the msb command does
pub record CommandLaws {W F : Type 0} (view : View W) (spawn : Spawn W) (json : Json F) (c : Config)
    : Type 0 where
  pub reads :
      (args : List Text) (w : W) → IsRead args → Same view w (run spawn json c request args w).1
  pub inspect_tells :
      (name : Text) (w : W) (d : Types.SandboxDetail)
      → (Client.inspect spawn json c name w).0 ≡ ok d
      → view.volumes_of (Client.inspect spawn json c name w).1 name ≡ volume_names d
  pub create_fails :
      (o : CreateOpts) (w : W) (e : Error)
      → (run spawn json c request (build_create_args o) w).0.failure ≡ some e
      → Same view w (run spawn json c request (build_create_args o) w).1
  pub create_boots :
      (o : CreateOpts) (w : W)
      → (run spawn json c request (build_create_args o) w).0.failure ≡ none
      → Booted view o.name w (run spawn json c request (build_create_args o) w).1
  pub create_mounts :
      (o : CreateOpts) (w : W)
      → (run spawn json c request (build_create_args o) w).0.failure ≡ none
      → view.running (run spawn json c request (build_create_args o) w).1 o.name ≡ true
      → view.volumes_of (run spawn json c request (build_create_args o) w).1 o.name
        ≡ mounted o.volume
  pub rollback_ends :
      (name : Text) (w : W) → Ended view name w (run spawn json c detached (rollback_args name) w).1
  pub start_fails :
      (name : Text) (w : W) (e : Error)
      → (run spawn json c request (on (codes "start") name) w).0.failure ≡ some e
      → Same view w (run spawn json c request (on (codes "start") name) w).1
  pub start_boots :
      (name : Text) (w : W)
      → (run spawn json c request (on (codes "start") name) w).0.failure ≡ none
      → Booted view name w (run spawn json c request (on (codes "start") name) w).1
  pub start_keeps :
      (name : Text) (w : W)
      → view.running (run spawn json c request (on (codes "start") name) w).1 name ≡ true
      → view.volumes_of (run spawn json c request (on (codes "start") name) w).1 name
        ≡ view.volumes_of w name
  pub ends :
      (verb name : Text) (w : W)
      → (verb ≡ codes "stop") ⊎ (verb ≡ codes "rm")
      → (run spawn json c request (on verb name) w).0.failure ≡ none
      → Ended view name w (run spawn json c request (on verb name) w).1
  pub end_fails :
      (verb name : Text) (w : W) (e : Error)
      → (verb ≡ codes "stop") ⊎ (verb ≡ codes "rm")
      → told (run spawn json c request (on verb name) w).0 ≡ some e
      → is_error e sandbox_not_found ≡ false
      → Same view w (run spawn json c request (on verb name) w).1
  pub end_not_found :
      (verb name : Text) (w : W) (e : Error)
      → (verb ≡ codes "stop") ⊎ (verb ≡ codes "rm")
      → told (run spawn json c request (on verb name) w).0 ≡ some e
      → is_error e sandbox_not_found ≡ true
      → Ended view name w (run spawn json c request (on verb name) w).1
