-- ===== src/Orders.antt =====
-- Order states, shared/mezna_shared/order_state.py.
pub mod State
