-- ===== src/Auth.antt =====
-- crates/nagent-server/src/auth: the throttling of login attempts.
pub mod LoginRateLimiter
