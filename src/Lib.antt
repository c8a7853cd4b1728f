-- ===== src/Lib.antt =====
-- The agent harness of src/prism_harness: task lists that agents share, the budgets of run trees,
-- an index of session addresses, stored conversations, the sessions and runs of agents that talk
-- to a model, and the two slots of stores beneath them. This library models its core as functions
-- over explicit state and proves what the operations keep.
--
-- The parts, and where they are:
--   * Value, Value/Data, Value/Dict, Value/Equality: documents as decoded JSON, with the dict
--     operations and the equality that the Python code uses on them.
--   * Errors: src/prism_harness/errors.py, the codes and the factories. Result and Exec are code
--     that may raise, without and with a state; what was written before a raise stays written.
--   * Store: the contract of src/prism_harness/stores/base.py. A `World` is what a store holds,
--     the clock, and the keys whose lock cannot be had; `with_lock` runs its callback in one
--     step. Store/Memory is src/prism_harness/stores/memory.py, Recalling what it answers.
--   * Python and Hashes: the parts of the runtime that the code calls (`str`, `json.dumps`,
--     hashlib), as instance arguments.
--   * Tasks: src/prism_harness/tasks.py. State and Record are the data, Source the operations of
--     `StoreTaskSource` (`claim` with its `take`, `release` with its `settle`, `extend_lease`
--     with its `hold`, `add_many`, `pending`, `find`, `records`), Completion the tool over any
--     source. Steps is the relation of interleaved actions by many workers; Histories, Listed and
--     Exclusion reason about all its runs.
--   * Subagents: src/prism_harness/subagents.py. Ledger is `RunBudget` and `RunLedger`, Context
--     nested budgets and contexts, Config the reading of configuration.
--   * Address and AddressIndex: src/prism_harness/address.py and address_index.py. Head is the
--     stored head and pages, Append the journaled append with its recovery and `record`, Reading
--     `page`.
--   * ThreadRows: src/prism_harness/thread_rows.py. Rows is what a run writes, View
--     `thread_view`, which keeps its last row first while it reads, Scope `approval_tool_scope`.
--   * Session: src/prism_harness/session.py, over the worlds of its two stores.
--   * Structured: src/prism_harness/structured.py. Check is the checker, on fuel for the depth of
--     a schema, and Conforms the inductive description of what a schema allows.
--   * Runtime: src/prism_harness/runtime.py. Data is what a run is given and returns, and the
--     machine that it changes; Offering has `_settings`, `_offer` and `effective_tools`, Opening
--     `_turn` until its run has begun, Turning until its loop, Sending the rest of it with
--     `send_structured`; Steps has `_invoke`, `_assert_document` and `_finish`, Responses and
--     Loop `_loop`, Resolving `_unresolved`, `_run_approved`, `_resolve_approvals` and
--     `record_approval`, Settings `_bounded_run`, `_narrowed_tools` and
--     `_validate_runtime_config`. Counting and Halting are about the ledger, Gating, Approving
--     and Guarding, with Agreeing, about which tools are called, Answering and Once about
--     resuming, Offered, Wrapped and Preparing about the tools that a turn is offered, Starting,
--     Reporting and Enough about how a turn ends.
--   * Nested: src/prism_harness/subagent_runner.py. Attachments:
--     src/prism_harness/attachments.py.
--   * Registration, Modes and Tools: src/prism_harness/registration.py, modes.py and tools.py. In
--     Modes, Resolution is `resolve`; in Tools, Built and Named are about the names of tools.
--   * Thread: src/prism_harness/thread.py. Manager: src/prism_harness/stores/manager.py.
--
-- How the parts meet: Tasks, AddressIndex and Thread act on the same `World`; an extension of a
-- lease asks the ledger of Subagents whether the run may still spend. A run writes the rows of
-- ThreadRows to the Thread of its Session, is bounded by the ledger of Subagents, and checks a
-- document by Structured. Its turn takes its mode from Modes and its tools from Tools, and a tool
-- of Nested runs a turn of its own on the ledger of its parent. The client of the model and the
-- tools are parameters of a run and may change its whole machine, since a tool may write to the
-- session or run an agent of its own; which theorem needs what of them is said there.
--
-- Numbers. A clock reading is a natural number of ticks of 2^-22 seconds, and a float of a
-- document an integer number of them, which is exact for readings below 2^31 seconds. A lease is
-- a whole number of seconds: an int is rounded to the nearest double, half to even, and one that
-- no double holds is refused. Money is an integer count of a fixed fraction of a dollar, so sums
-- are exact where floats round. Two loops take fuel: the schema check, which is given the size of
-- the schema and is proved to need no more, and the loop of a run, which is proved to end within
-- the steps that its budget has left and one more; a turn passes its fuel to its loop. Every
-- other loop is recursion on the list it walks or on the number of positions it has left.
--
-- Not modelled: the English of messages; a crash inside one put. The registries and the
-- authorizer of an agent are made by `for_agent` once and handed in; that they are kept is not
-- modelled. Of runtime.py the checks of the constructor's arguments are left out, of session.py
-- construction and identity, and the index around its stores, which the sessions of an agent with
-- a name always have: what a put there raises is not modelled, and what is proved of nested runs
-- is about agents of no name. Of address_index.py `IndexedSessionStore` is left out, of events.py
-- all but the events of a run. Left out as a whole: harness.py, skills.py, doctor.py, and the
-- file store with its locks, which are operating-system calls for the most part.
pub mod Prelude
pub mod Value
pub mod Errors
pub mod Result
pub mod Exec
pub mod Store
pub mod Python
pub mod Hashes
pub mod Address
pub mod AddressIndex
pub mod Thread
pub mod ThreadRows
pub mod Session
pub mod Manager
pub mod Subagents
pub mod Structured
pub mod Registration
pub mod Modes
pub mod Tools
pub mod Tasks
pub mod Attachments
pub mod Runtime
pub mod Nested
