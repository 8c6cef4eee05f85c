-- ===== src/OpenRouter.antt =====
-- src/mechagnome/openrouter.py: requests that are tried again.
pub mod Failures
pub mod Retries
pub mod Attempts
pub mod Items
pub mod Stream
pub mod Turn
pub mod Lines
pub mod Assembled
pub mod Ended
pub mod WireArgs
pub mod Visible
pub mod Annotated
