-- ===== src/Ctl/Tests.antt =====
-- the theorems on msbctl, at a spec with a secret and a config file with one profile.
use msb_manager.Prelude.{
  suc, none, err, pos, lookup, ℕ, Text, codes, Option, some, List, [], ◌∷◌, All, contains_byte,
  contains_byte-Lacks, lookup, Result, ok, ◌≡◌, refl, trim_space, trim_left, trim_right, has_prefix,
}
use msb_manager.Ctl.Render.{Codec}
use msb_manager.Ctl.Run.{Sys, missing}
use msb_manager.Ctl.Interpolate.{
  Node, node, none_left, more, document, scalar, other_style, interpolate, walk, substitute,
  has_placeholder, placeholder_at, span_name, rewrite_head, filled,
}
use msb_manager.Ctl.Interpolate.Shapes.{Filled, interpolate-Filled}
use msb_manager.Ctl.Interpolate.Templates.{
  Piece, literal, reference, IsPiece, render, fill, substitute-render,
}
use msb_manager.Ctl.Target.{CliFlags, Target, Profile, ConfigFile}

abbrev no_env : Text → Text
no_env name = []

-- a value that looks like a reference and like YAML
abbrev vars : Text → Option Text
vars name = some (codes "${X}: [")

abbrev pieces : List Piece
pieces = literal (codes "key: ") ∷ reference (codes "TOKEN") ∷ []

pieces-IsPiece : All (IsPiece vars) pieces
pieces-IsPiece = (
  contains_byte-Lacks b'$' (codes "key: ") (unfold contains_byte in refl),
  ((refl, (_, refl)), tt),
)

substitute-render_example : substitute vars 0 (render pieces) [] ≡ (fill vars pieces, [])
substitute-render_example = substitute-render vars pieces [] pieces-IsPiece

abbrev scalar_doc : Text → Node
scalar_doc t =
    node document [] (other_style 0) []
      (more (node scalar [] (other_style 0) t none_left) none_left)

abbrev read : Text → Result Text Node
read t = ok (scalar_doc t)

value_of : Node → Text
value_of (node k tag style value (more (node k' tag' style' value' c) ns)) = value'
value_of (node k tag style value none_left) = value

abbrev write : Node → Result Text Text
write n = ok (value_of n)

interpolated : interpolate read write (codes "${A}") vars ≡ ok (codes "${X}: [")
unfolding interpolate walk substitute has_placeholder placeholder_at span_name rewrite_head filled
    value_of trim_space trim_left trim_right has_prefix
interpolated = refl

interpolate-Filled_example :
    (doc : Node) × (filled : Node) × (read (codes "${A}") ≡ ok doc)
    × (write filled ≡ ok (codes "${X}: ["))
    × Filled vars doc filled
interpolate-Filled_example =
    interpolate-Filled read write (codes "${A}") vars (codes "${X}: [") interpolated

abbrev flags : CliFlags
flags = record { server = []; token = []; profile = codes "home" }

abbrev home : Profile
home = record { url = codes "https://msb.test"; token = codes "secret" }

abbrev config_file : ConfigFile
config_file = record { default_profile = []; profiles = (codes "home", home) ∷ [] }

abbrev home_target : Target
home_target = record { url = codes "https://msb.test"; token = codes "secret" }

-- a codec that decodes nothing
abbrev no_codec : Codec ℕ
no_codec = record {
  error_field = λ s. none;
  exec_output = λ s. err s;
  rows = λ s. err s;
  object = λ s. err s;
  any_value = λ s. err s;
  to_yaml = λ s. err s;
  tabulate = λ rows. [];
  integral = λ n. some (pos n);
  format_float = λ n. [];
}

-- a network that counts the requests, and nothing configured
abbrev counting : Sys ℕ ℕ
counting = record {
  transport = λ q n. (ok (record { status = 204; body = [] }), suc n);
  getenv = no_env;
  stdin = ok [];
  stat = λ path. missing;
  read_file = λ path. err path;
  join = λ parts. [];
  parse_url = λ u. none;
  parse_ip = λ h. none;
  codec = no_codec;
  read_yaml = λ s. err s;
  write_yaml = λ d. err [];
  read_config = λ s. err s;
  usage = [];
}

abbrev start_web : List Text
start_web = codes "--token" ∷ codes "secret" ∷ codes "start" ∷ codes "web" ∷ []
