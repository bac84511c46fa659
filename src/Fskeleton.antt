-- ===== src/Fskeleton.antt =====
-- internal/fskeleton: the in-memory directory tree behind every archive reader.
pub mod Mode
pub mod Time
pub mod Size
pub mod State
pub mod Create
pub mod Lookup
pub mod Attr
pub mod Dir
pub mod Use
pub mod Walk
pub mod Reach
mod Runs
mod Sessions
pub mod Tree
