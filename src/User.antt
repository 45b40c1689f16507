-- ===== src/User.antt =====
-- The user library: lab/lib.
pub mod Args
pub mod Fd
pub mod File
pub mod Fork
pub mod Pipe
pub mod Sh
mod Tests
