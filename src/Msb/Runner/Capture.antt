-- ===== src/Msb/Runner/Capture.antt =====
-- internal/msb/exec_runner.go: what the capture keeps does not depend on how the pipe cuts the output.
use msb_manager.Prelude.{
  ℕ, Text, Bool, ◌||◌, Option, some, List, [], ◌∷◌, ◌++◌, length, take, ltb, if◌then◌else◌, ◌≡◌,
}
use msb_manager.Msb.Errors.{Error}
use msb_manager.Msb.Runner.{CapWriter, Child, too_large}

-- the bytes of all the chunks
abbrev pub concat : List Text → Text
concat [] = []
concat (p ∷ ps) = p ++ concat ps

-- the writer has seen these bytes: it holds the first `limit` of them, and the flag tells whether
-- there were more
record Holds (limit : ℕ) (seen : Text) (w : CapWriter) : Type 0 where
  bounded : w.limit ≡ limit
  buffered : w.buf ≡ take limit seen
  flagged : w.overflow ≡ ltb limit (length seen)

-- did the child write more than the cap on one of its streams?
abbrev pub over_cap : ℕ → Child → Bool
over_cap limit c =
    ltb limit (length (concat c.stdout_chunks)) || ltb limit (length (concat c.stderr_chunks))

abbrev pub reported : ℕ → Child → Option Error
reported limit c = if over_cap limit c then some (too_large limit c.failure) else c.failure
