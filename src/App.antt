-- ===== src/App.antt =====
-- app/main.py: how an instance is put together, started and ended.
pub mod Wiring
pub mod Lifespan
