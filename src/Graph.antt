-- ===== src/Graph.antt =====
-- Graphs: the builder of src/langgraph/graph/state_graph.cpp, the tasks of a super-step and the
-- routing of compiled_state_graph.cpp.
pub mod Task
pub mod Types
pub mod Builder
pub mod Reach
pub mod Validate
pub mod Route
