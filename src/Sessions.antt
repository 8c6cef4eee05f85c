-- ===== src/Sessions.antt =====
-- src/mechagnome/kernel.py: the sessions of the kernel. The children model their lineage, their
-- creation, their titles and descriptions, their toolbox selection and the scopes taken from it.
pub mod Lineage
pub mod Annotations
pub mod Create
pub mod Selection
