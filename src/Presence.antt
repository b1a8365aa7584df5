-- ===== src/Presence.antt =====
-- app/presence
pub mod Store
pub mod Manager
pub mod Machine
