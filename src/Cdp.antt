-- ===== src/Cdp.antt =====
-- The browser control of prax_sandbox/cdp_service.py.
pub mod Keys
pub mod Frames
pub mod Replies
pub mod Input
pub mod Targets
pub mod Connect
pub mod Send
pub mod Scripts
pub mod Pages
