-- ===== src/Rag.antt =====
-- The document service, services/rag/app.
pub mod Pages
