-- ===== src/Server.antt =====
-- internal/server: what the HTTP layer decides by itself.
pub mod RateLimit
pub mod Numbers
mod Tests
