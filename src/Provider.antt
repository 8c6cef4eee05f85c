-- ===== src/Provider.antt =====
-- src/mechagnome/model_provider.py
pub mod Frames
