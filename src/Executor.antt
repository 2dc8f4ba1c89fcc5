-- ===== src/Executor.antt =====
-- The executor, services/executor/app.
pub mod Settings
pub mod Plan
pub mod Sizing
pub mod Orders
pub mod Books
pub mod Desk
pub mod Leg
pub mod Legs
pub mod Paper
pub mod VolSizing
pub mod Outcome
pub mod Consumer
