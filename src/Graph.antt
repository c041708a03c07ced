-- ===== src/Graph.antt =====
-- src/agent/graph.py: the settings of the agent, its tools and its document store, and the agent graph.
pub mod Settings
pub mod Backend
pub mod Tools
pub mod Create
pub mod Instance
pub mod Sample
mod Tests
