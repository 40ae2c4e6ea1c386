-- ===== src/Agent.antt =====
-- agent/: the memory of conversations.
pub mod Memory
pub mod ToolAgent
