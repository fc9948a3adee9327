-- ===== src/Runtime.antt =====
-- The runtime that evolves the program itself (nanobot/runtime).
pub mod Dict
pub mod Promotion
pub mod Release
mod Tests
