-- ===== src/Access.antt =====
-- The authentication of a control session: crates/k10s-server/src/auth.rs.
pub mod Bits
pub mod Tokens
pub mod Hello
pub mod Examples
