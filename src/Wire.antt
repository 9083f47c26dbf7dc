-- ===== src/Wire.antt =====
-- The peer wire protocol: Client/client/communication/message.go and handshake.go.
pub mod Words
pub mod Message
pub mod Payloads
pub mod Bitfield
pub mod Handshake
pub mod Framing
pub mod Exchange
pub mod Bits
pub mod Greeting
mod Tests
