-- ===== src/Api.antt =====
-- app/api/routes, and the handlers that app/main.py builds and runs
pub mod Middleware
pub mod Notifications
pub mod History
pub mod Auth
pub mod Health
pub mod Delivery
pub mod Shutdown
