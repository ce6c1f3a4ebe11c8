-- ===== src/Ctl/Render.antt =====
-- cmd/msbctl/render.go: what a read prints. encoding/json, the writer of yaml.v3, text/tabwriter and
-- the formatting of a float are the parameters of `Codec`, over a type `F` of floats.
use msb_manager.Prelude.{
  ℕ, Text, codes, Bool, false, Option, none, some, List, [], ◌∷◌, ◌++◌, map, Map, lookup, keys,
  Result, ok, err, ℤ, itoa_int, ◌-◌, ◌==◌, leb, ◌&&◌, is_empty, text_eq, trim_space, if◌then◌else◌,
}
use msb_manager.Msb.Args.{sort_texts}

-- a decoded JSON value, as a cell of a table sees it: an array or an object is its compact text
pub data Value (F : Type 0) : Type 0 where
  null : Value F
  string : Text → Value F
  bool : Bool → Value F
  number : F → Value F
  nested : Text → Value F

-- the response of POST /sandboxes/{name}/exec
pub record ExecOutput : Type 0 where
  pub stdout : Text
  pub stderr : Text
  pub exit_code : ℤ

pub record Codec (F : Type 0) : Type 0 where
  -- json.Unmarshal at the types that are decoded into, with the text of its error
  pub error_field : Text → Option Text
  pub exec_output : Text → Result Text ExecOutput
  pub rows : Text → Result Text (List (Map (Value F)))
  pub object : Text → Result Text (Map (Value F))
  -- json.Unmarshal into any, and yaml.Marshal of that
  pub any_value : Text → Result Text Text
  pub to_yaml : Text → Result Text Text
  -- tabwriter: rows of cells
  pub tabulate : List (List Text) → Text
  -- int64(t), for t == math.Trunc(t) && math.Abs(t) < 1e18
  pub integral : F → Option ℤ
  pub format_float : F → Text

pub data Format : Type 0 where
  table json yaml : Format

abbrev known_format : Text → Option Format
known_format s =
    if text_eq s (codes "json")
    then some json
    else if text_eq s (codes "yaml")
    then some yaml
    else if text_eq s (codes "table")
    then some table
    else if is_empty s
    then some table
    else none

pub data RenderError : Type 0 where
  unknown_format : Text → RenderError
  decode_for_yaml encode_yaml decode_list decode_object : Text → RenderError

abbrev ends_line : Text → Bool
ends_line [] = false
ends_line (c ∷ []) = c == 10
ends_line (c ∷ d ∷ s) = ends_line (d ∷ s)

-- writeJSONOut
unfoldable pub write_json_out : Text → Text
write_json_out body = if is_empty body then [] else if ends_line body then body else body ++ 10 ∷ []

abbrev upper_byte : ℕ → ℕ
upper_byte c = if leb b'a' c && leb c b'z' then c - 32 else c

-- strings.ToUpper, on ASCII
unfoldable pub to_upper : Text → Text
to_upper s = map upper_byte s

module _ {F : Type 0} (codec : Codec F) where
  -- writeYAMLOut
  unfoldable pub write_yaml_out : Text → Result RenderError Text
  write_yaml_out body = elim (codec.any_value body) [
    | err m ↦ err (decode_for_yaml m)
    | ok v ↦ elim (codec.to_yaml v) [ err m ↦ err (encode_yaml m) | ok out ↦ ok out ]
  ]

  number_string : Option ℤ → F → Text
  number_string none f = codec.format_float f
  number_string (some n) f = itoa_int n

  -- cellString, with "-" for a key that is missing
  unfoldable pub cell_string : Option (Value F) → Text
  unfolding number_string
  cell_string none = codes "-"
  cell_string (some null) = codes "-"
  cell_string (some (string s)) = if is_empty s then codes "-" else s
  cell_string (some (bool b)) = if b then codes "true" else codes "false"
  cell_string (some (number f)) = number_string (codec.integral f) f
  cell_string (some (nested s)) = s

  -- a row of renderListTable
  unfoldable pub cells : List Text → Map (Value F) → List Text
  cells [] row = []
  cells (c ∷ columns) row = cell_string (lookup c row) ∷ cells columns row

  -- renderListTable
  unfoldable pub render_list_table : List Text → Text → Result RenderError Text
  unfolding to_upper cells
  render_list_table columns body = elim (codec.rows body) [
    | err m ↦ err (decode_list m)
    | ok [] ↦ ok (codes "(none)\n")
    | ok (r ∷ rows) ↦ ok (codec.tabulate (map to_upper columns ∷ map (cells columns) (r ∷ rows)))
  ]

  -- a line of renderObjectTable
  unfoldable pub line : Map (Value F) → Text → List Text
  unfolding cell_string
  line obj k = k ∷ cell_string (lookup k obj) ∷ []

  -- renderObjectTable
  unfoldable pub render_object_table : Text → Result RenderError Text
  unfolding line
  render_object_table body = elim (codec.object body) [
    | err m ↦ err (decode_object m)
    | ok obj ↦ ok (codec.tabulate (map (line obj) (sort_texts (keys obj))))
  ]

  rendered : Text → List Text → Result RenderError Text
  unfolding render_list_table render_object_table
  rendered [] columns = ok (codes "(empty)\n")
  rendered (c ∷ s) columns =
      if c == b'[' then render_list_table columns (c ∷ s) else render_object_table (c ∷ s)

  -- renderTable
  unfoldable pub render_table : Text → List Text → Result RenderError Text
  unfolding rendered
  render_table body columns = rendered (trim_space body) columns

  -- renderRead
  unfoldable pub render_read : Text → Text → List Text → Result RenderError Text
  unfolding write_json_out write_yaml_out render_table
  render_read format body columns = elim (known_format format) [
    | none ↦ err (unknown_format format)
    | some json ↦ ok (write_json_out body)
    | some yaml ↦ write_yaml_out body
    | some table ↦ render_table body columns
  ]
