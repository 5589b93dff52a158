-- ===== src/Client.antt =====
-- The core of the client, below xx_chat_client/xx_chat_client/src.
pub mod Operations
pub mod Events
pub mod HttpPool
pub mod Login
pub mod Relogin
mod Tests
