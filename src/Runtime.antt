-- ===== src/Runtime.antt =====
-- src/prism_harness/runtime.py: the loop of a run, and the approvals that a stopped run waits on.
-- The client of the model and the tools are other people's code: parameters, in `Outside`.
pub mod Data
pub mod Steps
pub mod Responses
pub mod Loop
pub mod Resolving
pub mod Settings
pub mod Offering
pub mod Opening
pub mod Turning
pub mod Sending
pub mod Starting
pub mod Reporting
pub mod Guarding
pub mod Offered
pub mod Wrapped
pub mod Agreeing
pub mod Preparing
pub mod Enough
pub mod Counting
pub mod Halting
pub mod Gating
pub mod Documents
pub mod Answering
pub mod Approving
pub mod Once
pub mod Tests
pub mod TurnTests
mod ApprovalTests
