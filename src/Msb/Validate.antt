-- ===== src/Msb/Validate.antt =====
-- internal/msb/validate.go: the shapes of identifiers. Bytes outside ASCII are in no class.
pub mod Regexps
use msb_manager.Prelude.{
  ℕ, Text, codes, Bool, true, false, ◌&&◌, ◌||◌, List, [], ◌∷◌, length, all, leb, ◌==◌,
  if◌then◌else◌, is_digit,
}

abbrev pub is_letter : ℕ → Bool
is_letter c = (leb b'A' c && leb c b'Z') || (leb b'a' c && leb c b'z')

-- [A-Za-z0-9]
abbrev pub is_alnum : ℕ → Bool
is_alnum c = is_letter c || is_digit c

-- [A-Za-z0-9_.-]
abbrev pub is_name_byte : ℕ → Bool
is_name_byte c = is_alnum c || (c == b'_' || (c == b'.' || c == b'-'))

-- [A-Za-z0-9._]
abbrev pub is_image_first : ℕ → Bool
is_image_first c = is_alnum c || (c == b'.' || c == b'_')

-- [A-Za-z0-9._/:@-]
abbrev pub is_image_byte : ℕ → Bool
is_image_byte c = is_name_byte c || (c == b'/' || (c == b':' || c == b'@'))

-- [A-Za-z_]
abbrev pub is_env_first : ℕ → Bool
is_env_first c = is_letter c || c == b'_'

-- [A-Za-z0-9_]
abbrev pub is_env_byte : ℕ → Bool
is_env_byte c = is_alnum c || c == b'_'

-- ValidName: nameRe
unfoldable pub valid_name : Text → Bool
valid_name [] = false
valid_name (c ∷ s) = is_alnum c && (all is_name_byte s && leb (length s) 127)

-- ValidImage: imageRe
unfoldable pub valid_image : Text → Bool
valid_image [] = false
valid_image (c ∷ s) = is_image_first c && all is_image_byte s

unfoldable pub size_unit : Text → Bool
size_unit s = all is_letter s && leb (length s) 3

unfoldable pub size_tail : Text → Bool
size_tail [] = true
size_tail (c ∷ s) = if is_digit c then size_tail s else size_unit (c ∷ s)

-- ValidSize: sizeRe
unfoldable pub valid_size : Text → Bool
valid_size [] = false
valid_size (c ∷ s) = is_digit c && size_tail s

-- ValidEnvKey: envKeyRe
unfoldable pub valid_env_key : Text → Bool
valid_env_key [] = false
valid_env_key (c ∷ s) = is_env_first c && (all is_env_byte s && leb (length s) 127)
