-- ===== src/Runner.antt =====
-- src/mechagnome/isolation.py: what a runner of authored tools keeps of a detached run.
pub mod Sanitizer
pub mod ToolRun
pub mod RunTable
