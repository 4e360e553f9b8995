-- ===== src/RateLimit.antt =====
-- internal/auth/ratelimiter and internal/auth/luascripts
pub mod Scripts
pub mod Limiter
pub mod Ends
pub mod Lockout
