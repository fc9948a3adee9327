-- ===== src/Memory.antt =====
-- The memory of the agent (nanobot/agent/memory.py).
pub mod Store
pub mod Consolidate
pub mod Archive
pub mod Policy
pub mod Rounds
pub mod Progress
pub mod Steady
mod Tests
