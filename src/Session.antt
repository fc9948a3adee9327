-- ===== src/Session.antt =====
-- Conversation sessions (nanobot/session/manager.py).
pub mod Message
pub mod History
pub mod Manager
pub mod Recovery
pub mod Sound
mod Tests
