-- ===== src/Tasks.antt =====
-- src/prism_harness/tasks.py: agent task lists. The four-state machine, the stored record, the
-- source over the durable store, and the completion tool that drives any source. The operations
-- stand in the modules named for them; their theorems are below those.
pub mod State
pub mod Record
pub mod Lease
pub mod Listing
pub mod Source
pub mod Completion
mod Tests
pub mod Expiry
pub mod Search
pub mod Written
pub mod Claiming
pub mod Releasing
pub mod Steps
pub mod Change
pub mod Extending
pub mod Adding
pub mod Acting
pub mod Histories
pub mod Order
pub mod Listed
pub mod Exclusion
pub mod Atomic
pub mod Allowance
pub mod Strictness
pub mod Closing
