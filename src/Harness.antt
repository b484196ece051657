-- ===== src/Harness.antt =====
-- The agent harness (crates/harness/src): memory, reflection cadence and the agent loop.
pub mod Memory
pub mod Policy
pub mod Llm
pub mod Agent
pub mod Reflection
pub mod MemoryTool
