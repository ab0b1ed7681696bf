-- ===== src/Workflows.antt =====
-- backend/workflows: dependency graphs, budgets and the durable store.
pub mod Budget
pub mod Graph
pub mod Store
