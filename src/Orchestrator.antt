-- ===== src/Orchestrator.antt =====
-- core/orchestrator/: the state contract, the graph engine, the nodes' control logic and the graph
-- that `build_graph` assembles.
pub mod State
pub mod Graph
pub mod Nodes
pub mod Agent
