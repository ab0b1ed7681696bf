-- ===== src/Context.antt =====
-- backend/context: the sources of a conversation, and who may read them.
pub mod Contracts
pub mod Tables
pub mod Store
pub mod Profiles
pub mod Preparation
pub mod Builder
mod Examples
