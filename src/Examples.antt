-- ===== src/Examples.antt =====
-- Small databases, streams and runs, and the theorems applied to them.
mod Annotations
mod Rollbacks
mod Runs
mod Sessions
mod Streams
mod Writes
mod Invocations
mod Requests
mod Detached
