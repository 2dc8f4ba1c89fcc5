-- ===== src/Executor/Outcome.antt =====
-- services/executor/app/consumer.py, _record_outcome: the statistics of a strategy after its orders,
-- under keys of their own in Redis.
pub mod Keys
pub mod Rotation
pub mod Edge
pub mod Statistics
pub mod Choice
pub mod Apart
pub mod Keeping
pub mod Standing
pub mod Shown
pub mod Refinement
