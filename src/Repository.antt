-- ===== src/Repository.antt =====
-- What internal/repository computes around its queries.
pub mod Hits
