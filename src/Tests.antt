-- ===== src/Tests.antt =====
-- The theorems at concrete programs, memories and files.
mod Machine
mod Assembling
mod Files
mod Savepoints
mod Sessions
mod Debugging
mod Snapshots
mod Commands
