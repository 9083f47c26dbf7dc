-- ===== src/Program.antt =====
-- The client's programs: Client/main.go, Client/utils/utils.go and Client/fyneUI.go.
pub mod Info
pub mod Saved
pub mod Served
pub mod Window
pub mod Session
mod Tests
