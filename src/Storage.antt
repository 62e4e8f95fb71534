-- ===== src/Storage.antt =====
-- lib/storage: objects under their URIs, in slots that a hash table finds.
pub mod Types
pub mod Table
pub mod Objects
