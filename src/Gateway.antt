-- ===== src/Gateway.antt =====
-- The gateway, services/gateway/app.
pub mod Auth
pub mod Control
pub mod Signals
