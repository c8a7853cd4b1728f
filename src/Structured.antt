-- ===== src/Structured.antt =====
-- src/prism_harness/structured.py: does a document satisfy a schema? A problem is the way a document
-- misses its schema with the path and the operands of its message. `Conforms` says what a schema
-- means without the check, and `Verdict` that the check reports nothing exactly then.
pub mod Check
pub mod Conforms
mod Sizes
mod Parts
pub mod Verdict
mod Tests
