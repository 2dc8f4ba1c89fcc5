-- ===== src/Ledger.antt =====
-- The books: realised profit and loss, and the positions and trades that a fill changes.
pub mod Pnl
