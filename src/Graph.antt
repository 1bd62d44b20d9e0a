-- ===== src/Graph.antt =====
-- The graph of backend/core/: its storage, its history and its search.
pub mod Models
pub mod Multigraph
pub mod Score
pub mod Search
pub mod Storage
pub mod Insertion
pub mod Change
pub mod Deletion
pub mod Integrity
pub mod Related
pub mod History
