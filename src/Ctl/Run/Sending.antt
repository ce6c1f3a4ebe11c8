-- ===== src/Ctl/Run/Sending.antt =====
-- cmd/msbctl/main.go: a run of msbctl sends nothing without a token.
use msb_manager.Prelude.{Text, true, false, Option, none, some, List, ok, ◌⊎◌, ◌≡◌}
use msb_manager.Ctl.Target.{Target, ConfigFile, resolve_target}
use msb_manager.Ctl.Flags.{FlagSet, parse}
use msb_manager.Ctl.Client.{has_token}
use msb_manager.Ctl.Commands.{Env, Ran, Command}
use msb_manager.Ctl.Run.{Sys, global_flags, cli_flags, config_path, load_config}
use msb_manager.Ctl.Run.Tokenless.{IsFailed}

-- a command fails when it has no token
abbrev Fails : {W F : Type 0} → Option (Env W F → Command W) → Type 0
Fails none = Unit
Fails {W} {F} (some cmd) =
    (env : Env W F) (w : W) (args : List Text)
    → has_token env.target ≡ false
    → IsFailed w (cmd env args w)

module _ {W F : Type 0} (sys : Sys W F) (args : List Text) (w : W) where
  -- the token that the run of msbctl has found
  pub record HasToken : Type 0 where
    pub flags : FlagSet
    pub rest : List Text
    pub config : Option ConfigFile
    pub target : Target
    pub parsed : parse global_flags args ≡ ok (flags, rest)
    pub loaded : (load_config sys (config_path sys)).0 ≡ ok config
    pub resolved : resolve_target (cli_flags flags) sys.getenv config ≡ ok target
    pub token : has_token target ≡ true

  abbrev SentWithToken : Ran W → Type 0
  SentWithToken r = (r.world ≡ w) ⊎ HasToken
