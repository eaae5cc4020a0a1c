-- ===== src/Models.antt =====
-- internal/models: the rows of the database that the modelled components read and write.
pub mod Service
