-- ===== src/Config.antt =====
-- internal/config/config.go: the configuration from the environment. Durations are in nanoseconds;
-- time.ParseDuration is a parameter.
pub mod Bounds
mod Tests
use msb_manager.Prelude.{
  ℕ, ◌*◌, ◌≤◌, ◌<◌, Text, codes, Bool, true, false, Option, none, some, Result, ok, err, ◌>>=◌,
  ◌>>◌, reject_if, is_empty, if◌then◌else◌, ℤ, pos, negsuc, is_pos, ltb, ◌≡◌, refl, arith,
  Bool-cases, Result-cases, inl, inr, not, ◌↔◌, ◌≢◌,
}

pub record Config : Type 0 where
  pub token : Text
  pub listen_addr : Text
  pub msb_path : Text
  pub data_dir : Text
  pub cmd_timeout : ℤ

pub data ConfigError : Type 0 where
  token_required : ConfigError
  bad_duration : Text → ConfigError
  not_positive above_cap : ℤ → ConfigError

-- DefaultCmdTimeout
abbrev pub default_cmd_timeout : ℤ
default_cmd_timeout = pos 60000000000

-- MaxCmdTimeout
abbrev pub max_cmd_timeout : ℕ
max_cmd_timeout = 90000000000

-- orDefault
abbrev pub or_default : Text → Text → Text
or_default v def = if is_empty v then def else v

-- d > MaxCmdTimeout
abbrev pub exceeds_cap : ℤ → Bool
exceeds_cap (pos n) = ltb max_cmd_timeout n
exceeds_cap (negsuc n) = false

abbrev bounded : ℤ → Result ConfigError ℤ
bounded d =
    if not (is_pos d)
    then err (not_positive d)
    else if exceeds_cap d
    then err (above_cap d)
    else ok d

abbrev parsed : Text → Option ℤ → Result ConfigError ℤ
parsed v none = err (bad_duration v)
parsed v (some d) = bounded d

module _ (parse_duration : Text → Option ℤ) where
  -- parseTimeout
  unfoldable pub parse_timeout : Text → Result ConfigError ℤ
  parse_timeout v = if is_empty v then ok default_cmd_timeout else parsed v (parse_duration v)

  -- Load
  unfoldable pub load : (Text → Text) → Result ConfigError Config
  unfolding parse_timeout
  load getenv = do
    reject_if (is_empty (getenv (codes "MSB_MANAGER_TOKEN"))) token_required
    t ← parse_timeout (getenv (codes "MSB_MANAGER_CMD_TIMEOUT"))
    ok (record {
      token = getenv (codes "MSB_MANAGER_TOKEN");
      listen_addr = or_default (getenv (codes "MSB_MANAGER_LISTEN_ADDR")) (codes "127.0.0.1:8080");
      msb_path = or_default (getenv (codes "MSB_MANAGER_MSB_PATH")) (codes "msb");
      data_dir = or_default (getenv (codes "MSB_MANAGER_DATA_DIR")) (codes "/var/lib/msb-manager");
      cmd_timeout = t;
    })
