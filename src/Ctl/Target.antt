-- ===== src/Ctl/Target.antt =====
-- cmd/msbctl/config.go: the choice of the server and the token. The file is read elsewhere: `none`
-- stands for no config file.
pub mod Precedence
use msb_manager.Prelude.{
  Text, codes, Bool, Option, none, some, List, [], ◌∷◌, Map, lookup, Result, ok, err, is_empty,
  if◌then◌else◌,
}

pub record CliFlags : Type 0 where
  pub server : Text
  pub token : Text
  pub profile : Text

pub record Target : Type 0 where
  pub url : Text
  pub token : Text

pub record Profile : Type 0 where
  pub url : Text
  pub token : Text

pub record ConfigFile : Type 0 where
  pub default_profile : Text
  pub profiles : Map Profile

pub data TargetError : Type 0 where
  no_config_file profile_not_found : Text → TargetError

-- firstNonEmpty
unfoldable pub first_non_empty : List Text → Text
first_non_empty [] = []
first_non_empty (v ∷ vs) = if is_empty v then first_non_empty vs else v

-- defaultURL
abbrev pub default_url : Text
default_url = codes "http://127.0.0.1:8080"

abbrev default_profile_of : Option ConfigFile → Text
default_profile_of none = []
default_profile_of (some c) = c.default_profile

-- profName
unfoldable pub profile_name : CliFlags → (Text → Text) → Option ConfigFile → Text
unfolding first_non_empty
profile_name f getenv cfg =
    let name = first_non_empty (f.profile ∷ getenv (codes "MSB_MANAGER_PROFILE") ∷ []) in
    if is_empty name then default_profile_of cfg else name

abbrev listed : Text → Option Profile → Result TargetError Profile
listed name none = err (profile_not_found name)
listed name (some p) = ok p

abbrev profile_in : Text → Option ConfigFile → Result TargetError Profile
profile_in name none = err (no_config_file name)
profile_in name (some c) = listed name (lookup name c.profiles)

-- prof
unfoldable pub selected : Text → Option ConfigFile → Result TargetError Profile
selected name cfg =
    if is_empty name then ok (record { url = []; token = [] }) else profile_in name cfg

-- resolveTarget
unfoldable pub resolve_target :
    CliFlags → (Text → Text) → Option ConfigFile → Result TargetError Target
unfolding first_non_empty
resolve_target f getenv cfg = elim (selected (profile_name f getenv cfg) cfg) [
  | err e ↦ err e
  | ok p ↦ ok (record {
    url = first_non_empty (f.server ∷ getenv (codes "MSB_MANAGER_URL") ∷ p.url ∷ default_url ∷ []);
    token = first_non_empty (f.token ∷ getenv (codes "MSB_MANAGER_TOKEN") ∷ p.token ∷ []);
  })
]
