-- ===== src/Alembic.antt =====
-- alembic
pub mod Versions
