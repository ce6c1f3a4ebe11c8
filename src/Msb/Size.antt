-- ===== src/Msb/Size.antt =====
-- internal/msb/size.go: volume sizes, in MiB. Go's `int` has 64 bits here and wraps.
pub mod Laws
use msb_manager.Prelude.{
  ℕ, ◌*◌, ◌-◌, ◌^◌, ◌%◌, Text, codes, Bool, true, false, ◌&&◌, Option, none, some, List, [], ◌∷◌,
  ◌+◌, map, leb, ltb, if◌then◌else◌, ℤ, pos, negsuc, Result, ok, err, Map, lookup, decimal,
  is_digit, is_empty,
}

pub data SizeError : Type 0 where
  no_number out_of_range : SizeError
  bad_unit : Text → SizeError

-- unitMiB
abbrev pub unit_mib : Map ℕ
unit_mib =
    (codes "", 1)
    ∷ (codes "m", 1)
    ∷ (codes "mb", 1)
    ∷ (codes "mib", 1)
    ∷ (codes "g", 1024)
    ∷ (codes "gb", 1024)
    ∷ (codes "gib", 1024)
    ∷ (codes "t", 1024 * 1024)
    ∷ (codes "tb", 1024 * 1024)
    ∷ (codes "tib", 1024 * 1024)
    ∷ []

-- strings.ToLower, on ASCII
abbrev pub to_lower : ℕ → ℕ
to_lower c = if leb b'A' c && leb c b'Z' then c + 32 else c

-- s[:i] and s[i:] for the first `i` whose byte is no digit
unfoldable pub span_digits : Text → Text × Text
span_digits [] = ([], [])
span_digits (c ∷ s) = let r = span_digits s in if is_digit c then (c ∷ r.0, r.1) else ([], c ∷ s)

-- strconv.Atoi, on a text of digits
unfoldable pub atoi : Text → Option ℕ
atoi ds = if ltb (decimal 0 ds) (2 ^ 63) then some (decimal 0 ds) else none

-- the 64-bit pattern `m` as an `int`
abbrev pub signed : ℕ → ℤ
signed m = if ltb m (2 ^ 63) then pos m else negsuc (2 ^ 64 - 1 - m)

-- a number that was computed in 64 bits
abbrev pub wrap_int : ℕ → ℤ
wrap_int n = signed (n % 2 ^ 64)

abbrev scaled : Text → ℕ → Option ℕ → Result SizeError ℤ
scaled unit n (some mult) = ok (wrap_int (n * mult))
scaled unit n none = err (bad_unit unit)

abbrev in_units : Text → Option ℕ → Result SizeError ℤ
in_units unit (some n) = scaled unit n (lookup (map to_lower unit) unit_mib)
in_units unit none = err out_of_range

-- ParseSizeMiB
unfoldable pub parse_size_mib : Text → Result SizeError ℤ
parse_size_mib s =
    let (ds, unit) = span_digits s in if is_empty ds then err no_number else in_units unit (atoi ds)
