-- ===== src/Risk.antt =====
-- The risk engine, services/risk/app.
pub mod Settings
pub mod Checker
pub mod State
pub mod Consumer
