-- ===== src/Tools/Tool.antt =====
-- What the harness needs of a tool, and the callables that make tools or judge them.
use prism_harness_py.Prelude.{ℕ, String, Bool, List}
use prism_harness_py.Exec.{Exec}
use prism_harness_py.Session.{Session}

-- A tool, as the harness sees it: its name, which object it is, and in how many `AuthorizedTool`s it is
-- wrapped. What the object's own `handle` does is other people's code.
pub record HarnessTool : Type 0 where
  pub name : String
  pub identity : ℕ
  pub wrappings : ℕ

abbrev pub ToolFactory : Type 0
ToolFactory = Exec Session HarnessTool

abbrev pub ToolProvider : Type 0
ToolProvider = Exec Session (List HarnessTool)

abbrev pub OfferPolicy : Type 0
OfferPolicy = HarnessTool → Exec Session Bool

-- `ResolvedTool`
pub record ResolvedTool : Type 0 where
  pub tool : HarnessTool
  pub owner : String
  pub source : String
