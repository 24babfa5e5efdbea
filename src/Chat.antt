-- ===== src/Chat.antt =====
-- Examples/ChatServer: a chat server on the engine.
pub mod Protocol
pub mod Server
pub mod Packets
pub mod Login
pub mod Leave
pub mod Fanout
pub mod Sound
pub mod Linked
pub mod Occurs
pub mod Callbacks
pub mod Dangling
mod Tests
