-- ===== src/Ctl/Flags.antt =====
-- cmd/msbctl/commands.go, parseFlags, over the FlagSet of Go's package flag.
pub mod Interspersed
use msb_manager.Prelude.{
  ℕ, zero, suc, Text, codes, Bool, true, false, ◌||◌, Option, none, some, List, [], ◌∷◌, ◌++◌,
  length, Map, lookup, insert, Result, ok, err, ◌==◌, if◌then◌else◌, is_empty, text_eq, any, ◌>>=◌,
}
use msb_manager.Ctl.Pairs.{split_key_value, set_pair}

-- a flag with its value: of fs.String, of fs.Bool, and a kvFlag
pub data FlagValue : Type 0 where
  text : Text → FlagValue
  switch : Bool → FlagValue
  pairs : Map Text → FlagValue

-- flag.FlagSet: the flags that are declared, with their values
abbrev pub FlagSet : Type 0
FlagSet = Map FlagValue

pub data FlagError : Type 0 where
  bad_syntax not_defined needs_argument bad_value : Text → FlagError

-- strconv.ParseBool
unfoldable pub parse_bool : Text → Option Bool
parse_bool s =
    if any (text_eq s)
      (codes "1" ∷ codes "t" ∷ codes "T" ∷ codes "true" ∷ codes "TRUE" ∷ codes "True" ∷ [])
    then some true
    else if any (text_eq s)
        (codes "0" ∷ codes "f" ∷ codes "F" ∷ codes "false" ∷ codes "FALSE" ∷ codes "False" ∷ [])
    then some false
    else none

-- the Set of a flag's Value
unfoldable pub set_value : FlagValue → Text → Option FlagValue
set_value (text old) s = some (text s)
set_value (switch old) s = elim (parse_bool s) [ none ↦ none | some b ↦ some (switch b) ]
set_value (pairs m) s = elim (set_pair s m) [ err e ↦ none | ok m' ↦ some (pairs m') ]

-- what an argument is to FlagSet.parseOne
pub data Token : Type 0 where
  positional terminator malformed : Token
  undefined : Text → Token
  sets : Text → Text → Token  -- a flag, and its value in the same argument
  wants : Text → Token  -- a flag whose value is the next argument

abbrev bare : Option FlagValue → Text → Token
bare none name = undefined name
bare (some (switch b)) name = sets name (codes "true")
bare (some (text s)) name = wants name
bare (some (pairs m)) name = wants name

abbrev valued : Option FlagValue → Text → Text → Token
valued none name v = undefined name
valued (some f) name v = sets name v

abbrev looked_up : FlagSet → Text → Option (Text × Text) → Token
looked_up fs name none = bare (lookup name fs) name
looked_up fs name (some (k, v)) = valued (lookup k fs) k v

-- the argument without its dashes
unfoldable pub named : FlagSet → Text → Token
named fs [] = malformed
named fs (c ∷ s) =
    if c == b'-' || c == b'=' then malformed else looked_up fs (c ∷ s) (split_key_value (c ∷ s))

unfoldable pub classify : FlagSet → Text → Token
unfolding named
classify fs [] = positional
classify fs (c ∷ []) = positional
classify fs (c ∷ d ∷ s) =
    if c == b'-'
    then (if d == b'-' then (if is_empty s then terminator else named fs s) else named fs (d ∷ s))
    else positional

-- flag.FlagSet.Set
unfoldable pub set_flag : Text → Text → FlagSet → Result FlagError FlagSet
set_flag name v fs = elim (lookup name fs) [
  | none ↦ err (not_defined name)
  | some f ↦ elim (set_value f v) [ none ↦ err (bad_value name) | some f' ↦ ok (insert name f' fs) ]
]

abbrev pub Parsed : Type 0
Parsed = Result FlagError (FlagSet × List Text)

-- flag.FlagSet.parseOne on the last argument
abbrev pub on_last : FlagSet → Text → Token → Parsed
on_last fs s positional = ok (fs, s ∷ [])
on_last fs s terminator = ok (fs, [])
on_last fs s malformed = err (bad_syntax s)
on_last fs s (undefined name) = err (not_defined name)
on_last fs s (sets name v) = set_flag name v fs >>= λ fs'. ok (fs', [])
on_last fs s (wants name) = err (needs_argument name)

-- and on one that others follow: with the next argument `v` to come, or taken as a value
abbrev pub on_next :
    FlagSet → Text → Text → List Text → (FlagSet → Parsed) → (FlagSet → Parsed) → Token → Parsed
on_next fs s v args to_come taken positional = ok (fs, s ∷ v ∷ args)
on_next fs s v args to_come taken terminator = ok (fs, v ∷ args)
on_next fs s v args to_come taken malformed = err (bad_syntax s)
on_next fs s v args to_come taken (undefined name) = err (not_defined name)
on_next fs s v args to_come taken (sets name w) = set_flag name w fs >>= to_come
on_next fs s v args to_come taken (wants name) = set_flag name v fs >>= taken

-- flag.FlagSet.Parse: the flags, and the arguments that are left
unfoldable pub parse : FlagSet → List Text → Parsed
parse fs [] = ok (fs, [])
parse fs (s ∷ []) = on_last fs s (classify fs s)
parse fs (s ∷ v ∷ args) =
    on_next fs s v args (λ fs'. parse fs' (v ∷ args)) (λ fs'. parse fs' args) (classify fs s)

-- the loop of parseFlags; none means that the fuel ran out
unfoldable pub parse_loop : ℕ → FlagSet → List Text → List Text → Option Parsed
parse_loop zero fs args positionals = none
parse_loop (suc n) fs args positionals = elim (parse fs args) [
  | err e ↦ some (err e)
  | ok (fs', []) ↦ some (ok (fs', positionals))
  | ok (fs', r ∷ rest) ↦ parse_loop n fs' rest (positionals ++ r ∷ [])
]

-- parseFlags: a round of the loop takes an argument away
unfoldable pub parse_flags : FlagSet → List Text → Option Parsed
parse_flags fs args = parse_loop (suc (length args)) fs args []
