-- ===== src/Operation.antt =====
-- The operation lifecycle engine: crates/k10s-backend/src/operation/state.rs and its idempotency store,
-- crates/k10s-backend/src/operation/idempotency.rs.
pub mod Records
pub mod Idempotency
pub mod Engine
pub mod Lifecycle
pub mod Rooms
pub mod Consistency
pub mod History
pub mod Outcomes
pub mod Replay
mod Examples
