-- ===== src/Server/Auth.antt =====
-- internal/server/auth.go. `sha256` is the digest of crypto/sha256, a parameter.
use msb_manager.Prelude.{
  Text, codes, not, ◌||◌, drop, length, has_prefix, text_eq, is_empty, if◌then◌else◌,
}
use msb_manager.Server.{Response, State, empty}

abbrev pub bearer_prefix : Text
bearer_prefix = codes "Bearer "

-- strings.TrimPrefix
abbrev pub trim_prefix : Text → Text → Text
trim_prefix s p = if has_prefix s p then drop (length p) s else s

-- unauthorized
abbrev pub unauthorized : {F : Type 0} → Response F
unauthorized = record { status = 401; body = empty }

module _ {W F : Type 0} (sha256 : Text → Text) where
  -- requireBearer
  unfoldable pub require_bearer :
      Text → Text → (State W → Response F × State W) → State W → Response F × State W
  require_bearer token h next st =
      if is_empty token || not (has_prefix h bearer_prefix)
      then (unauthorized, st)
      else if not (text_eq (sha256 (trim_prefix h bearer_prefix)) (sha256 token))
      then (unauthorized, st)
      else next st
