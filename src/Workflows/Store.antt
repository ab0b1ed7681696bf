-- ===== src/Workflows/Store.antt =====
-- backend/workflows/store.py: the durable store of single-task workflows.
pub mod Tables
pub mod External
pub mod Operations
pub mod Acceptance
pub mod Recovery
pub mod Lifecycle
pub mod Keys
pub mod Rows
pub mod Effects
pub mod Advances
pub mod Reaches
pub mod Startup
pub mod Runs
pub mod Guarantees
pub mod Replay
pub mod Evidence
pub mod Expiry
pub mod Crash
pub mod Graphs
pub mod Examples
