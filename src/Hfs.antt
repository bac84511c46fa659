-- ===== src/Hfs.antt =====
-- internal/hfs: the reader of plain HFS volumes.
pub mod Btree
pub mod Extents
pub mod Roman
pub mod Catalog
mod Volumes
mod Runs
