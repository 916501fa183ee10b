-- ===== src/Server.antt =====
-- internal/server: what stands in front of the handlers.
pub mod RateLimit
