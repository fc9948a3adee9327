-- ===== src/Providers.antt =====
-- The base of the providers (nanobot/providers/base.py).
pub mod Sanitize
pub mod Retry
pub mod Clean
pub mod Attempts
mod Tests
