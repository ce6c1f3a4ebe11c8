-- ===== src/Msb/Errors.antt =====
-- internal/msb/errors.go, and the classification of runner errors in internal/msb/client.go.
-- An error is kept as the chain that `errors.Is` and `errors.As` walk: one constructor for each
-- place of the adapter that makes or wraps an error.
use msb_manager.Prelude.{
  ℕ, Text, codes, Bool, false, ◌||◌, Option, none, some, List, [], ◌∷◌, has_prefix, drop, length,
  trim_space, ◌==◌, if◌then◌else◌, ℤ,
}

pub data Sentinel : Type 0 where
  sandbox_not_found sandbox_already_exists sandbox_still_running : Sentinel
  volume_already_exists volume_not_found : Sentinel
  snapshot_already_exists snapshot_not_found : Sentinel
  timeout output_too_large : Sentinel

pub data Error : Type 0 where
  -- fmt.Errorf("%w: %s", c.err, detail)
  classified : Sentinel → Text → Error
  -- fmt.Errorf("%w after %s: %v", ErrTimeout, c.timeout, err): only ErrTimeout is wrapped
  timed_out : Error → Error
  -- fmt.Errorf("%w (cap %d bytes per stream): %v", ErrOutputTooLarge, limit, err)
  capped : ℕ → Error → Error
  -- fmt.Errorf("%w (cap %d bytes per stream)", ErrOutputTooLarge, limit)
  capped_ok : ℕ → Error
  -- fmt.Errorf("install ssh keys after create: %w", ...)
  install_keys : Error → Error
  -- *exec.ExitError and its ExitCode(), -1 after a signal
  exit_error : ℤ → Error
  -- context.Canceled
  canceled : Error
  -- any other failure to start or await the child, and a failure to decode msb's output
  other : Text → Error

abbrev pub tag : Sentinel → ℕ
tag sandbox_not_found = 0
tag sandbox_already_exists = 1
tag sandbox_still_running = 2
tag volume_already_exists = 3
tag volume_not_found = 4
tag snapshot_already_exists = 5
tag snapshot_not_found = 6
tag timeout = 7
tag output_too_large = 8

-- errors.Is(err, sentinel)
unfoldable pub is_error : Error → Sentinel → Bool
is_error (classified t d) s = tag t == tag s
is_error (timed_out e) s = 7 == tag s
is_error (capped n e) s = 8 == tag s
is_error (capped_ok n) s = 8 == tag s
is_error (install_keys e) s = is_error e s
is_error (exit_error n) s = false
is_error canceled s = false
is_error (other t) s = false

-- errors.As(err, &codeErr)
unfoldable pub exit_code? : Error → Option ℤ
exit_code? (exit_error n) = some n
exit_code? (install_keys e) = exit_code? e
exit_code? (classified s d) = none
exit_code? (timed_out e) = none
exit_code? (capped n e) = none
exit_code? (capped_ok n) = none
exit_code? canceled = none
exit_code? (other t) = none

abbrev pub Row : Type 0
Row = Text × Sentinel

-- classifierTable
abbrev pub classifier_table : List Row
classifier_table =
    (codes "sandbox not found:", sandbox_not_found)
    ∷ (codes "sandbox already exists:", sandbox_already_exists)
    ∷ (codes "sandbox still running:", sandbox_still_running)
    ∷ (codes "volume already exists:", volume_already_exists)
    ∷ (codes "volume not found:", volume_not_found)
    ∷ (codes "snapshot already exists:", snapshot_already_exists)
    ∷ (codes "snapshot not found:", snapshot_not_found)
    ∷ (codes "no logs directory for sandbox", sandbox_not_found)
    ∷ []

-- s[strings.Index(s, p)+len(p):], if `p` occurs in `s`
unfoldable pub find_after : Text → Text → Option Text
find_after p [] = if has_prefix [] p then some [] else none
find_after p (c ∷ s) =
    if has_prefix (c ∷ s) p then some (drop (length p) (c ∷ s)) else find_after p s

abbrev or_next : Sentinel → Option Text → Option Error → Option Error
or_next e (some rest) next = some (classified e (trim_space rest))
or_next e none next = next

unfoldable pub classify_in : List Row → Text → Option Error
classify_in [] s = none
classify_in ((p, e) ∷ rows) s = or_next e (find_after p s) (classify_in rows s)

-- classifyError
unfoldable pub classify_error : Text → Option Error
classify_error stderr = classify_in classifier_table (trim_space stderr)

unfoldable pub classify_at : List Row → Text → Option Error
classify_at [] rest = none
classify_at ((p, e) ∷ rows) rest =
    if has_prefix rest p
    then some (classified e (trim_space (drop (length p) rest)))
    else classify_at rows rest

abbrev pub error_prefix : Text
error_prefix = codes "error: "

-- classifyErrorAnchored
unfoldable pub classify_error_anchored : Text → Option Error
classify_error_anchored stderr =
    let s = trim_space stderr in
    if has_prefix s error_prefix
    then classify_at classifier_table (drop (length error_prefix) s)
    else none

abbrev or_raw : Option Error → Error → Error
or_raw (some c) e = c
or_raw none e = e

-- wrapRunErr
unfoldable pub wrap_run_err : Text → Option Error → Option Error
wrap_run_err stderr none = none
wrap_run_err stderr (some e) = some (
    if is_error e timeout || is_error e output_too_large
    then e
    else or_raw (classify_error stderr) e)
