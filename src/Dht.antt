-- ===== src/Dht.antt =====
-- The Kademlia DHT: Client/dht/Kademlia.
pub mod Xor
pub mod Node
pub mod Table
pub mod Distance
pub mod Buckets
pub mod Removal
pub mod Tables
pub mod Placement
pub mod Nearest
pub mod Gathering
pub mod Gathered
pub mod Compact
pub mod Messages
pub mod Store
pub mod Ordered
pub mod Storage
pub mod Retrieval
pub mod Expiry
pub mod Handler
pub mod Server
pub mod Answering
pub mod Finding
pub mod Crash
pub mod Sending
pub mod Lookup
pub mod Reading
pub mod Rounds
pub mod Search
pub mod Refresh
pub mod Process
pub mod Aimed
mod Tests
mod LookupTests
