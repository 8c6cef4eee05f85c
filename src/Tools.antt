-- ===== src/Tools.antt =====
-- src/mechagnome/kernel.py: tools. The children model how a name is resolved along a scope, the
-- validation and the writing of a tool, its deletion and its rollback, and prove about each.
pub mod Resolve
pub mod Validate
pub mod Write
pub mod Delete
pub mod Ownership
pub mod Activation
pub mod Extension
pub mod Written
pub mod FullWrite
pub mod Leads
pub mod Reads
pub mod Removed
pub mod RolledBack
pub mod Catalog
