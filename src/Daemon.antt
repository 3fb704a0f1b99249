-- ===== src/Daemon.antt =====
-- The daemon of prax_sandbox/daemon: who may call it, and how it starts.
pub mod Auth
pub mod Startup
pub mod Services
pub mod Routes
pub mod CdpProxy
mod Tests
