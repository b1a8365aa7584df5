-- ===== src/Schemas.antt =====
-- app/schemas
pub mod Notifications
