-- ===== src/Tickets.antt =====
-- The validation tickets of the backend: crates/k10s-backend/src/validation/ticket.rs.
pub mod Store
pub mod Issue
pub mod Redemption
pub mod Examples
