-- ===== src/Invoke.antt =====
-- src/mechagnome/kernel.py: the invocation of tools.
pub mod Program
pub mod Capability
pub mod Call
pub mod Marks
pub mod Quiet
pub mod Trail
pub mod Kept
pub mod Nested
pub mod Calls
pub mod Bounds
pub mod Fuel
pub mod Success
