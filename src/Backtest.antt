-- ===== src/Backtest.antt =====
-- The backtest, services/backtest/app.
pub mod WalkForward
pub mod Engine
