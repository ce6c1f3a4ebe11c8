-- ===== src/Config/Tests.antt =====
-- the theorem on Load, in an environment with a token and a timeout.
use msb_manager.Prelude.{
  ℕ, ◌<◌, Text, codes, false, Option, none, some, ok, is_empty, text_eq, if◌then◌else◌, ℤ, pos, ◌≡◌,
  refl,
}
use msb_manager.Config.{Config, load, parse_timeout}
use msb_manager.Config.Bounds.{load_lem, write_timeout}

abbrev environment : Text → Text
environment name =
    if text_eq name (codes "MSB_MANAGER_TOKEN")
    then codes "secret"
    else if text_eq name (codes "MSB_MANAGER_CMD_TIMEOUT")
    then codes "90s"
    else codes ""

abbrev ninety : Text → Option ℤ
ninety v = if text_eq v (codes "90s") then some (pos 90000000000) else none

abbrev loaded : Config
loaded = record {
  token = codes "secret";
  listen_addr = codes "127.0.0.1:8080";
  msb_path = codes "msb";
  data_dir = codes "/var/lib/msb-manager";
  cmd_timeout = pos 90000000000;
}

loads : load ninety environment ≡ ok loaded
unfolding load parse_timeout text_eq
loads = refl

load_lem_example :
    (is_empty loaded.token ≡ false)
    × (loaded.token ≡ environment (codes "MSB_MANAGER_TOKEN"))
    × ((n : ℕ) × (loaded.cmd_timeout ≡ pos n) × (0 < n) × (n < write_timeout))
load_lem_example = load_lem ninety environment loaded loads
