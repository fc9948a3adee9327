-- ===== src/Cron.antt =====
-- The cron service (nanobot/cron/types.py and nanobot/cron/service.py).
pub mod Types
pub mod World
pub mod Doc
pub mod Store
pub mod Timer
pub mod Jobs
pub mod RoundTrip
pub mod Wake
pub mod Runs
pub mod Shape
pub mod Events
pub mod Saving
pub mod Removal
pub mod Adding
pub mod Listing
pub mod Reload
pub mod Tool
mod Tests
