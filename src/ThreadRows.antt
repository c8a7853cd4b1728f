-- ===== src/ThreadRows.antt =====
-- src/prism_harness/thread_rows.py: the rows a run writes to a thread, the view of them that a model
-- is shown, and the authority that a stopped run left. `Rows` are the rows with their writers, `View`
-- is `thread_view`, `Scope` is `approval_tool_scope`.
pub mod Rows
pub mod View
pub mod Scope
pub mod Reading
pub mod Authority
mod Tests
