-- ===== src/Msb/Runner.antt =====
-- internal/msb/exec_runner.go: the capture of a child's output. The child is a parameter: what it
-- writes, in the chunks that the pipe delivers, and how it ends.
pub mod Capture
use msb_manager.Prelude.{
  ℕ, ◌-◌, ◌*◌, ◌^◌, Text, Bool, true, false, ◌||◌, Option, none, some, List, [], ◌∷◌, ◌++◌, length,
  take, ltb, if◌then◌else◌, ℤ, pos, negsuc, is_pos, to_nat,
}
use msb_manager.Msb.Errors.{Error, capped, capped_ok}

-- capWriter
pub record CapWriter : Type 0 where
  pub buf : Text
  pub limit : ℕ
  pub overflow : Bool

-- capWriter.Write. The buffer never outgrows the limit, so the truncated `-` is exact.
unfoldable pub write : CapWriter → Text → CapWriter
write w p =
    let room = w.limit - length w.buf in
    if ltb room (length p)
    then (if ltb 0 room
        then record w { overflow = true; buf = w.buf ++ take room p }
        else record w { overflow = true })
    else record w { buf = w.buf ++ p }

unfoldable pub write_all : CapWriter → List Text → CapWriter
write_all w [] = w
write_all w (p ∷ ps) = write_all (write w p) ps

-- what a child did: cmd.Run's error, and whether the context's deadline has passed by then
pub record Child : Type 0 where
  pub stdout_chunks : List Text
  pub stderr_chunks : List Text
  pub failure : Option Error
  pub deadline : Bool

pub record Outcome : Type 0 where
  pub stdout : Text
  pub stderr : Text
  pub failure : Option Error
  pub deadline : Bool

-- DefaultMaxCaptureBytes
abbrev pub default_max_capture_bytes : ℕ
default_max_capture_bytes = 32 * 2 ^ 20

unfoldable pub capture_limit : ℤ → ℕ
capture_limit n = if is_pos n then to_nat n else default_max_capture_bytes

abbrev pub fresh_writer : ℕ → CapWriter
fresh_writer limit = record { buf = []; limit = limit; overflow = false }

abbrev pub too_large : ℕ → Option Error → Error
too_large limit none = capped_ok limit
too_large limit (some e) = capped limit e

-- ExecRunner.Run, after the child has ended
unfoldable pub run_child : ℤ → Child → Outcome
unfolding write_all write
run_child max_capture c =
    let limit = capture_limit max_capture in
    let out = write_all (fresh_writer limit) c.stdout_chunks in
    let errs = write_all (fresh_writer limit) c.stderr_chunks in
    record {
      stdout = out.buf;
      stderr = errs.buf;
      failure =
          if out.overflow || errs.overflow then some (too_large limit c.failure) else c.failure;
      deadline = c.deadline;
    }
