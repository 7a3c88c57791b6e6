-- ===== src/Shell.antt =====
-- The commands of the SSH shell (internal/ssh) on VMs.
pub mod Commands
pub mod Services
pub mod Lifecycle
pub mod Keys
pub mod Admin
pub mod Texts
pub mod Sharing
mod Tests
