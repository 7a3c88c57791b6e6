-- ===== src/Proxy.antt =====
-- The web entrance (internal/proxy): which requests to a VM's host name are let through.
pub mod Auth
pub mod Routes
mod Tests
