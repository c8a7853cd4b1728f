-- ===== src/Subagents.antt =====
-- src/prism_harness/subagents.py: budgets, the ledger of a run tree, and nested agents.
-- `RunBudget` and `RunLedger` are records; a method that changes the ledger returns the new one, and
-- the ledger that a tree shares by reference is one value that every run of the tree is given.
-- Money is an integer count of a fixed fraction of a dollar, so sums are exact where the source's
-- floats round. A clock reading is an argument: `now` is `time.monotonic()`, in ticks.
mod Ledger
mod Context
mod Config
pub mod Nesting
pub mod Spending
mod Tests
unfoldable pub use Ledger.*
unfoldable pub use Context.*
unfoldable pub use Config.*
