-- ===== src/Ctl/Pairs.antt =====
-- cmd/msbctl/main.go, splitKeyValue, and cmd/msbctl/commands.go, the --set flag.
use msb_manager.Prelude.{
  ℕ, Text, [], ◌∷◌, ◌++◌, Option, none, some, Map, insert, lookup-insert, Lacks, Result, ok, err,
  Bool-cases, inl, inr, ◌==◌, ==_iff, if◌then◌else◌, is_empty, text_eq, false, ◌≡◌, ◌↔◌, refl, ap,
  arith, ◌∙◌, ◌≢◌,
}
use mathlib.Core.Path.{subst}
use msb_manager.Ctl.Interpolate.{make_lookup}

abbrev add_to_key : Text → ℕ → Option (Text × Text) → Option (Text × Text)
add_to_key s c none = none
add_to_key s c (some (key, value)) = some (c ∷ key, value)

-- splitKeyValue
unfoldable pub split_key_value : Text → Option (Text × Text)
split_key_value [] = none
split_key_value (c ∷ s) =
    let rest = split_key_value s in if c == b'=' then some ([], s) else add_to_key s c rest

-- the error names the argument
pub data PairError : Type 0 where
  expected_key_value : Text → PairError

abbrev set_parts : Text → Option (Text × Text) → Map Text → Result PairError (Map Text)
set_parts s none m = err (expected_key_value s)
set_parts s (some (key, value)) m =
    if is_empty key then err (expected_key_value s) else ok (insert key value m)

-- kvFlag.Set
unfoldable pub set_pair : Text → Map Text → Result PairError (Map Text)
set_pair s m = set_parts s (split_key_value s) m

split-joined :
    (key value : Text) → Lacks b'=' key → split_key_value (key ++ b'=' ∷ value) ≡ some (key, value)
unfolding split_key_value
split-joined [] value h = refl
split-joined (k ∷ key) value h = rw (split-joined key value h.1) (ground (arith, ==_iff k b'='))

-- the pair whose text is `s`
abbrev Reads : Text → Option (Text × Text) → Type 0
Reads s none = Unit
Reads s (some (key, value)) = (s ≡ key ++ b'=' ∷ value) × Lacks b'=' key

add_to_key-Reads :
    (s : Text) (c : ℕ) (r : Option (Text × Text))
    → c ≢ b'='
    → Reads s r
    → Reads (c ∷ s) (add_to_key s c r)
add_to_key-Reads s c none ne h = tt
add_to_key-Reads s c (some (key, value)) ne h = (ap (λ t. c ∷ t) h.0, (ne, h.1))

split-Reads : (s : Text) → Reads s (split_key_value s)
unfolding split_key_value
split-Reads [] = tt
split-Reads (c ∷ s) = elim (Bool-cases (c == b'=')) [
  | inl e ↦ rw (e) (ap (λ d. d ∷ s) ((==_iff c b'=').0 e), tt)
  | inr e ↦
      rw (e)
        (add_to_key-Reads s c (split_key_value s) (ground (arith, ==_iff c b'=')) (split-Reads s))
]

-- An argument splits at its first equals sign: the key holds none, and the value is all that follows.
pub split_key_value_iff :
    (s key value : Text)
    → (split_key_value s ≡ some (key, value)) ↔ ((s ≡ key ++ b'=' ∷ value) × Lacks b'=' key)
split_key_value_iff s key value = (
  (λ h. subst (Reads s) h (split-Reads s)),
  (λ h. ap split_key_value h.0 ∙ split-joined key value h.1),
)

-- `--set KEY=VALUE` is accepted where the key is not empty, and the variable KEY then has VALUE,
-- an empty one included, whatever an earlier --set or the environment says; the other variables
-- are what they were.
pub set_pair-make_lookup :
    (key value : Text) (m : Map Text) (getenv : Text → Text)
    → is_empty key ≡ false
    → Lacks b'=' key
    → (m2 : Map Text) × (set_pair (key ++ b'=' ∷ value) m ≡ ok m2)
      × ((name : Text)
          → make_lookup m2 getenv name
            ≡ (if text_eq key name then some value else make_lookup m getenv name))
unfolding set_pair make_lookup
set_pair-make_lookup key value m getenv filled lacks = (
  insert key value m,
  rw (split-joined key value lacks, filled) refl,
  λ name. elim (Bool-cases (text_eq key name)) [
    | inl e ↦ rw (lookup-insert key name value m, e) refl
    | inr e ↦ rw (lookup-insert key name value m, e) refl
  ],
)
