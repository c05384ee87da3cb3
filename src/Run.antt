-- ===== src/Run.antt =====
-- The executor of a run: src/langgraph/graph/graph_run.cpp.
pub mod Execute
pub mod Dispatch
pub mod Writes
pub mod Tasks
pub mod Budget
pub mod Flow
pub mod Session
pub mod Checks
pub mod Step
pub mod Loop
pub mod Compiled
pub mod Interrupts
