-- ===== src/Tools.antt =====
-- src/prism_harness/tools.py: the tools that there are, which of them a run is offered, and which
-- calls of them may proceed.
pub mod Tool
pub mod Registry
pub mod Built
pub mod Resolving
pub mod Named
pub mod Authorizer
