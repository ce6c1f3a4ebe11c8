-- ===== src/Ctl.antt =====
-- cmd/msbctl: the command line client. One module per source file.
pub mod Interpolate
pub mod Target
pub mod Status
pub mod Pairs
pub mod Flags
pub mod Client
pub mod Render
pub mod Commands
pub mod Run
mod Tests
