-- ===== src/Views.antt =====
-- saved_views/repository.py: the saved views, in memory and in PostgreSQL.
pub mod Store
pub mod Refined
pub mod Listed
pub mod Examples
