-- ===== src/Strategies.antt =====
-- The strategy runner, services/strategy/app.
pub mod EdgeMonitor
pub mod Base
pub mod StatArb
pub mod FundingArb
pub mod Swing
pub mod SignalConsumer
pub mod Rotation
pub mod Runner
