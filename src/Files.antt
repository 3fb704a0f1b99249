-- ===== src/Files.antt =====
-- The confined file operations of prax_sandbox/fileops.py, over a file system with links.
pub mod Disk
pub mod Realpath
pub mod Kernel
pub mod System
pub mod Confined
pub mod Growth
pub mod Contained
pub mod Walk
pub mod Listing
pub mod Users
mod Tests
