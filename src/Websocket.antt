-- ===== src/Websocket.antt =====
-- app/websocket
pub mod AuthHandshake
pub mod ConnectionManager
pub mod Heartbeat
pub mod Messages
pub mod MessageRouter
pub mod Gateway
