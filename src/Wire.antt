-- ===== src/Wire.antt =====
-- The formats that the server and its clients share: crates/k10s-protocol/src/stream.rs.
pub mod Payload
pub mod Examples
