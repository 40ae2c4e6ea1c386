-- ===== src/Auth.antt =====
-- auth/: sessions and the throttling of logins.
pub mod RateLimit
pub mod Session
pub mod Identity
pub mod Tokens
pub mod Gateway
