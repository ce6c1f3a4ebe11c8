-- ===== src/Manager/Run/Processes.antt =====
-- cmd/msb-manager/main.go as it is linked: the client of run is that of internal/msb, and every
-- effect on the machine is that of a child process.
use msb_manager.Prelude.{ℕ, Text, Option, some, ℤ, ok, ◌≡◌}
use msb_manager.Msb.Parse.{Json}
use msb_manager.Config
use msb_manager.Config.{load}
use msb_manager.Msb.Client.{Spawn}
use msb_manager.Server.Routes.{Yaml}
use msb_manager.Server.Adapter.{adapter}
use msb_manager.Server.Adapter.Laws.{adapter-MsbLaws}
use msb_manager.Server.Adapter.Commands.{CommandLaws}
use msb_manager.Server.Safety.{View}
use msb_manager.Server.Safety.Serving.{IsExclusive}
use msb_manager.Manager.Collecting.{StartupLaws}
use msb_manager.Manager.Run.{Surroundings, Failure, client_config, run}
use msb_manager.Manager.Run.Safety.{run-IsExclusive}

-- A process of msb-manager, whenever its signal comes, whatever requests it handles one after another
-- and however it ends, leaves no volume mounted by two running sandboxes, when it was so at its start:
-- given that, as its environment configures it, the commands of msb have the effect of their names,
-- that the removal of a sandbox whose keys could not be installed succeeds, and that msb's reads tell
-- the truth.
pub process-IsExclusive :
    {W F : Type 0} (view : View W) (spawn : Spawn W) (json : Json F)
    (parse_duration : Text → Option ℤ) (yaml : Yaml) (sha256 : Text → Text) (attempts : ℕ)
    (env : Surroundings) (w w' : W) (failure : Option Failure)
    → ((cfg : Config.Config)
        → load parse_duration env.getenv ≡ ok cfg
        → CommandLaws view spawn json (client_config cfg))
    → ((cfg : Config.Config)
        → load parse_duration env.getenv ≡ ok cfg
        → StartupLaws view (adapter spawn json (client_config cfg)))
    → IsExclusive view w
    → run (adapter spawn json) parse_duration yaml sha256 attempts env w ≡ some (failure, w')
    → IsExclusive view w'
process-IsExclusive view spawn json parse_duration yaml sha256 attempts env w w' failure commands
      tells ex h =
    run-IsExclusive view (adapter spawn json) parse_duration yaml sha256 attempts env w w' failure
      tells (λ cfg r. adapter-MsbLaws view spawn json (client_config cfg) (commands cfg r)) ex h
