-- ===== src/EgressGate.antt =====
-- The egress gate (prax_sandbox/egress_gate).
pub mod Ip
pub mod Policy
pub mod Gate
pub mod Proxy
pub mod Admin
pub mod Entry
mod Tests
