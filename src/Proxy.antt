-- ===== src/Proxy.antt =====
-- The database proxy, xx_chat_server/src/db_proxy_server: see the children.
pub mod Pool
pub mod PoolLeases
pub mod Responses
pub mod Requests
pub mod Workers
pub mod Keyed
pub mod Answers
pub mod Business
pub mod Logins
mod Tests
