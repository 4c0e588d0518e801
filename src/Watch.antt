-- ===== src/Watch.antt =====
-- The resource watches of the backend: crates/k10s-backend/src/watch.rs, runtime/cache.rs and
-- runtime/supervisor.rs.
pub mod Rows
pub mod Publisher
pub mod Mirror
pub mod Revisions
pub mod Examples
