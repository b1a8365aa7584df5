-- ===== src/Scripts.antt =====
-- scripts/: the tools that are run against a deployment.
pub mod Simulate
pub mod Demo
