-- ===== src/Tests.antt =====
-- The theorems at concrete inputs, over the sample platform.
mod Core
mod Api
mod Websocket
mod Sessions
mod Interleavings
mod Lifespans
mod Bodies
mod Requests
mod Migrations
mod Scripts
mod Demo
pub mod Worlds
