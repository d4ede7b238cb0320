-- ===== src/Infrastructure.antt =====
-- The adapters behind the core (infrastructure/).
pub mod Cache
pub mod N8n
