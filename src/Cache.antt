-- ===== src/Cache.antt =====
-- src/users_api/infrastructure/redis: attempt counters and revoked tokens.
pub mod RateLimiter
pub mod Sessions
