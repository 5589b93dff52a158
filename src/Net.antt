-- ===== src/Net.antt =====
-- The event-driven network library of xx_chat_server/src/net.
pub mod Buffer
pub mod Channel
pub mod Connector
pub mod Poller
pub mod Server
pub mod Loop
pub mod Tcp
