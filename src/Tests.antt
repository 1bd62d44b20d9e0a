-- ===== src/Tests.antt =====
-- The theorems at concrete inputs, component by component.
mod Hub
mod Limits
mod Sessions
mod Batches
mod Replays
mod Events
mod Graph
mod History
mod Registry
