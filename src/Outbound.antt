-- ===== src/Outbound.antt =====
-- The outbound scheduler of a control socket: crates/k10s-server/src/outbound.rs.
pub mod Queue
pub mod Scheduler
pub mod Selection
pub mod Delivery
pub mod Session
pub mod Bounds
pub mod Safety
pub mod Invariant
pub mod Admission
pub mod Growth
pub mod Contiguity
mod Examples
