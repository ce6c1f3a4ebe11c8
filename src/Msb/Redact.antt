-- ===== src/Msb/Redact.antt =====
-- internal/msb/client.go: the scrubbing of secret values from msb's stderr.
pub mod Laws
use msb_manager.Prelude.{
  ℕ, zero, suc, ◌-◌, Text, codes, [], ◌∷◌, ◌++◌, List, has_prefix, length, if◌then◌else◌, is_empty,
}
use msb_manager.Msb.Types.{Secret}

-- strings.ReplaceAll(s, old, new) for a nonempty `old`: from left to right, without overlaps. The
-- number counts the bytes of the last match that are still to be passed over.
unfoldable pub replace_from : Text → Text → ℕ → Text → Text
replace_from old new skip [] = []
replace_from old new (suc skip) (c ∷ s) = replace_from old new skip s
replace_from old new zero (c ∷ s) =
    let hit = new ++ replace_from old new (length old - 1) s in
    let miss = c ∷ replace_from old new zero s in if has_prefix (c ∷ s) old then hit else miss

unfoldable pub replace_all : Text → Text → Text → Text
unfolding replace_from
replace_all s old new = replace_from old new zero s

abbrev pub placeholder : Text
placeholder = codes "***REDACTED***"

-- redactSecrets
unfoldable pub redact_secrets : Text → List Secret → Text
redact_secrets out [] = out
redact_secrets out (sec ∷ secrets) =
    redact_secrets (if is_empty sec.value then out else replace_all out sec.value placeholder)
      secrets
