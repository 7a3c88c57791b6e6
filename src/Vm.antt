-- ===== src/Vm.antt =====
-- The virtual machines of one host (internal/vm): their network and their life cycle.
pub mod Network
pub mod Manager
pub mod Ending
mod Tests
