-- ===== src/Db.antt =====
-- app/db
pub mod Repository
pub mod Connection
