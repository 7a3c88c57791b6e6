-- ===== src/Api.antt =====
-- The HTTPS API (internal/api).
pub mod RateLimiter
pub mod Words
pub mod Handler
mod Tests
