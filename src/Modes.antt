-- ===== src/Modes.antt =====
-- src/prism_harness/modes.py: what a mode lets a run do, and the registry that resolves one. The
-- registry of one agent, or of none, is a record; the one that `for_agent` makes for an agent on its
-- first call is `agent_registry`.
pub mod Mode
pub mod Registry
pub mod Resolution
