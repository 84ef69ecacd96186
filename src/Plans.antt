-- ===== src/Plans.antt =====
-- scripts/plan-graph.py and scripts/resolve-plan-deps.py: the status blocks of plans, the graph of
-- their dependencies, and its renderings.
pub mod Status
pub mod Files
pub mod Resolve
pub mod Graph
pub mod Cycles
pub mod Build
pub mod Subgraph
pub mod Visible
pub mod Render
