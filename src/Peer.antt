-- ===== src/Peer.antt =====
-- The exchange of pieces between clients: Client/torrent_peer, and the hashes of
-- Client/client/torrent_file.
pub mod Pieces
pub mod Selection
pub mod Upload
pub mod Requests
pub mod Download
pub mod Assembly
pub mod Transfer
pub mod Hashes
pub mod Rarest
pub mod Blocks
pub mod Worker
pub mod Collector
pub mod Pacing
pub mod Dialogue
pub mod Flags
pub mod Conversation
pub mod Honest
pub mod Tasks
pub mod Complete
pub mod Ledger
pub mod Whole
pub mod TorrentFile
pub mod Published
pub mod Connect
pub mod Serve
pub mod Greet
pub mod Uploading
pub mod Accept
pub mod Announcing
pub mod Reported
pub mod Choking
pub mod Optimistic
mod Tests
mod WorkerTests
mod ReportedTests
