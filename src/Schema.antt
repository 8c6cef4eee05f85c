-- ===== src/Schema.antt =====
-- src/mechagnome/kernel.py, `Kernel._create_schema`: the tables of schema version 14. The columns
-- `created_at` are left out, and so are the row ids of the tables that nothing joins by row id.
pub mod Host
pub mod Insert
mod Tables
pub use Tables.*
