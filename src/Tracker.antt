-- ===== src/Tracker.antt =====
-- The tracker: tracker/tracker/tacker.go.
pub mod State
pub mod Publish
pub mod Queries
pub mod Announce
pub mod Scrape
pub mod Backup
pub mod Registry
pub mod Sampling
pub mod Counters
pub mod Mutex
pub mod Soundness
pub mod Invariant
pub mod Process
pub mod Restart
pub mod Greeted
pub mod Client
pub mod Meeting
pub mod Network
pub mod Spread
mod Tests
mod ProcessTests
