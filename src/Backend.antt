-- ===== src/Backend.antt =====
-- lib/backend: the backends, their roles, and the objects on them.
pub mod Types
pub mod Registry
pub mod Objects
pub mod Migration
pub mod Homes
pub mod Confinement
