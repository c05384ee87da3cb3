-- ===== src/Tests.antt =====
-- The theorems at concrete inputs.
mod Examples
mod Graphs
mod States
mod Runs
mod Loops
mod Failures
mod Updates
mod Interrupts
mod Checkpoints
mod PlainSaver
mod Savers
mod Storages
mod Limits
