-- ===== src/Inference.antt =====
-- backend/inference: the choice of a deployment for a task, and the attempts to run_passes it.
pub mod Deployment
pub mod Contracts
pub mod Errors
pub mod Runtime
pub mod Capabilities
pub mod Policy
pub mod Registry
pub mod Attempts
pub mod Router
mod Examples
