-- ===== src/Pki.antt =====
-- The certificate authority of the server pool (internal/pki).
pub mod JoinTokens
mod Tests
