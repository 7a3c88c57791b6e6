-- ===== src/Gateway.antt =====
-- The gateways of the VMs (internal/gateway).
pub mod Limiter
pub mod Llm
pub mod Registry
pub mod EmailSend
pub mod Metadata
mod Tests
