-- ===== src/Workspace.antt =====
-- The workspace's dependency engine (modules/pn/internal/workspace): repository configuration,
-- edges, the topological order, the lock file, the terminal and the overrides.
pub mod Config
pub mod Url
pub mod Dag
pub mod Edges
pub mod Lock
pub mod Terminal
pub mod Derive
pub mod Overrides
pub mod Effective
pub mod Graph
pub mod Publish
pub mod RunLock
pub mod Propagate
pub mod Push
pub mod Rebase
mod Tests
