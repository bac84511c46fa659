-- ===== src/Intern.antt =====
-- internal/internpath: canonical paths.
pub mod Path
pub mod Pack
pub mod Table
pub mod Text
mod Runs
