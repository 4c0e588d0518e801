-- ===== src/Resume.antt =====
-- The resume journals of the control sessions: crates/k10s-server/src/resume.rs.
pub mod Journal
pub mod Replays
pub mod Examples
pub mod Registry
pub mod Leases
pub mod Soundness
pub mod Rooms
pub mod Claims
pub mod Fencing
pub mod History
