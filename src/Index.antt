-- ===== src/Index.antt =====
-- lib/index: the entries of objects, and the hash indexes that chain them.
pub mod Entry
pub mod Tables
pub mod Removal
pub mod Links
pub mod Persist
