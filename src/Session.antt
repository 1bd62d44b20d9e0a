-- ===== src/Session.antt =====
-- The shared sessions of backend/core: session_hub.py, session_store.py, session_manager.py and
-- session_registry.py.
pub mod Claims
pub mod Presence
pub mod Bus
pub mod Bucket
pub mod State
pub mod Ids
pub mod Registry
pub mod Ops
pub mod Perform
pub mod Apply
pub mod Ring
pub mod Saved
pub mod Store
pub mod Batch
pub mod Manager
pub mod Submit
