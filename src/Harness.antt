-- ===== src/Harness.antt =====
-- src/mechagnome/harness.py: the parts of a rollout that are shared by threads, and the replay of a
-- conversation from its events.
pub mod Sink
pub mod Stops
pub mod Replay
