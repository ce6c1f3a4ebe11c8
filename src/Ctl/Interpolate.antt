-- ===== src/Ctl/Interpolate.antt =====
-- cmd/msbctl/interpolate.go: the references to variables in a spec are filled in on the tree of the
-- YAML document. yaml.v3 is a parameter: reading a document into its tree, and writing it.
pub mod Templates
pub mod Expansion
pub mod Shapes
use msb_manager.Prelude.{
  ℕ, zero, suc, ◌+◌, Text, codes, Bool, true, false, not, ◌&&◌, ◌||◌, Option, none, some, List, [],
  ◌∷◌, ◌++◌, drop, length, has_prefix, is_empty, trim_space, Map, lookup, insert, keys, Result, ok,
  err, if◌then◌else◌,
}
use msb_manager.Msb.Args.{sort_texts}
use msb_manager.Msb.Validate.{is_env_first, is_env_byte}

-- yaml.Kind and yaml.Style, as far as interpolate looks at them
pub data Kind : Type 0 where
  document sequence mapping scalar alias : Kind

pub data Style : Type 0 where
  double_quoted : Style
  other_style : ℕ → Style

mutual
  -- yaml.Node: kind, tag, style, value, content
  pub data Node : Type 0 where
    node : Kind → Text → Style → Text → Nodes → Node

  pub data Nodes : Type 0 where
    none_left : Nodes
    more : Node → Nodes → Nodes

-- the longest part of bytes of a name, and the rest
unfoldable pub span_name : Text → Text × Text
span_name [] = ([], [])
span_name (c ∷ s) = let r = span_name s in if is_env_byte c then (c ∷ r.0, r.1) else ([], c ∷ s)

abbrev closing : Text × Text → Option Text
closing ([], rest) = none
closing (c ∷ name, rest) =
    if is_env_first c && has_prefix rest (codes "}") then some (c ∷ name) else none

-- the name of the reference that the text begins with, by placeholderRE
unfoldable pub placeholder_at : Text → Option Text
placeholder_at s = if has_prefix s (codes "${") then closing (span_name (drop 2 s)) else none

abbrev is_some {ℓ} : {A : Type ℓ} → Option A → Bool
is_some none = false
is_some (some a) = true

-- placeholderRE.MatchString
unfoldable pub has_placeholder : Text → Bool
has_placeholder [] = false
has_placeholder (c ∷ s) = is_some (placeholder_at (c ∷ s)) || has_placeholder s

-- the set `missing`
abbrev pub Missing : Type 0
Missing = Map (Unit {0})

-- v, ok := lookup(name): what stands for the match, and the names that are missing
unfoldable pub filled : (Text → Option Text) → Text → Missing → Text × Missing
filled vars name missing = elim (vars name) [
  | some v ↦ (v, missing)
  | none ↦ (codes "${" ++ (name ++ codes "}"), insert name tt missing)
]

-- placeholderRE.ReplaceAllStringFunc: `skip` bytes of a match are still to be passed over
unfoldable pub substitute : (Text → Option Text) → ℕ → Text → Missing → Text × Missing
substitute vars skip [] missing = ([], missing)
substitute vars (suc skip) (c ∷ s) missing = substitute vars skip s missing
substitute vars zero (c ∷ s) missing = elim (placeholder_at (c ∷ s)) [
  | none ↦ let (out, missing') = substitute vars zero s missing in (c ∷ out, missing')
  | some name ↦
      let (value, missing') = filled vars name missing in
      let (out, missing'') = substitute vars (length name + 2) s missing' in
      (value ++ out, missing'')
]

abbrev is_scalar : Kind → Bool
is_scalar scalar = true
is_scalar _ = false

-- what walk does to a node itself: its tag, style and value, and the missing names
abbrev pub Head : Type 0
Head = (Text × (Style × Text)) × Missing

unfoldable pub rewrite_head : (Text → Option Text) → Kind → Text → Style → Text → Missing → Head
rewrite_head vars k tag style value missing =
    let (value', missing') = substitute vars zero value missing in
    if is_scalar k && has_placeholder value
    then ((codes "!!str", (double_quoted, value')), missing')
    else ((tag, (style, value)), missing)

unfoldable mutual
  -- walk
  pub walk : (Text → Option Text) → Node → Missing → Node × Missing
  walk vars (node k tag style value content) missing =
      let h = rewrite_head vars k tag style value missing in
      let r = walk_all vars content h.1 in (node k h.0.0 h.0.1.0 h.0.1.1 r.0, r.1)

  pub walk_all : (Text → Option Text) → Nodes → Missing → Nodes × Missing
  walk_all vars none_left missing = (none_left, missing)
  walk_all vars (more n ns) missing =
      let r = walk vars n missing in let s = walk_all vars ns r.1 in (more r.0 s.0, s.1)

pub data InterpolateError : Type 0 where
  empty_spec : InterpolateError
  bad_yaml bad_encoding : Text → InterpolateError
  undefined_variables : List Text → InterpolateError

abbrev encoded : Result Text Text → Result InterpolateError Text
encoded (ok t) = ok t
encoded (err m) = err (bad_encoding m)

abbrev if_complete : (Node → Result Text Text) → Node × Missing → Result InterpolateError Text
if_complete write (doc, []) = encoded (write doc)
if_complete write (doc, (name, u) ∷ missing) =
    err (undefined_variables (sort_texts (name ∷ keys missing)))

-- interpolate
unfoldable pub interpolate :
    (Text → Result Text Node)
    → (Node → Result Text Text)
    → Text
    → (Text → Option Text)
    → Result InterpolateError Text
interpolate read write raw vars =
    if is_empty (trim_space raw) then err empty_spec else (elim (read raw) [
      | err m ↦ err (bad_yaml m)
      | ok doc ↦ if_complete write (walk vars doc [])
    ])

abbrev from_env : Text → Option Text
from_env v = if is_empty v then none else some v

abbrev pub or_env : Option Text → Text → Option Text
or_env (some v) env = some v
or_env none env = from_env env

-- makeLookup
unfoldable pub make_lookup : Map Text → (Text → Text) → Text → Option Text
make_lookup set getenv name = or_env (lookup name set) (getenv name)
