-- ===== src/Msb.antt =====
-- internal/msb: the adapter over the `msb` command line. One module per source file or concern.
pub mod Errors
pub mod Types
pub mod Runner
pub mod Validate
pub mod Size
pub mod Shell
pub mod Redact
pub mod Args
pub mod Parse
pub mod Client
mod Tests
