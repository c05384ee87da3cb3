-- ===== src/Lib.antt =====
-- The graph runtime of langgraph-cpp: a graph of nodes is built and validated, and a run executes
-- it in super-steps, merges what the nodes write into a state and stores checkpoints.
--
-- Prelude: Boolean tests, lists, sets and maps in order, results with a status
-- (src/foundation/status), sorting, decimal numbers. Json: nlohmann::json as an interface, a
-- record of a type of values and its views, which the other modules take as an instance. State
-- (src/langgraph/state, src/foundation/serialization/state.cpp): states, updates, overwrite
-- values; State.Reducer (reducer.cpp): each reducer and applyStateUpdate. What it calls of the
-- message codec, the limits on values and the schema validator is the record Services.
--
-- Graph.Task and Graph.Types: tasks, nodes, options and routes. Graph.Builder, Graph.Reach and
-- Graph.Validate (src/langgraph/graph/state_graph.cpp): the builder operations, reachableFrom,
-- validate, compile. Graph.Route (compiled_state_graph.cpp): which tasks follow a node.
--
-- Run.Tasks, Run.Execute, Run.Dispatch, Run.Writes and Run.Interrupts
-- (src/langgraph/graph/graph_run.cpp): annotateTasks, the attempts at one task, the groups of
-- tasks that run at the same time, the writes of a super-step, and the interrupts stored in a
-- state. Run.Budget (src/foundation/resource/resource_limits.cpp): the budget of steps, retries
-- and memory. A handler is a function of the state and of what its runtime tells it; the clock
-- and the cancellation token are arguments.
--
-- Run.Flow: a part of a run as a function of the members of GraphRun that continues or stops with
-- a result, and rules for what such a part ensures. Run.Session: the members and options of
-- GraphRun, its events, putCheckpoint, putWrites and failRun, with Run.Session.Failed on what a
-- failure stores; Run.Checks: the checks on the executions of a super-step; Run.Step: one super-
-- step; Run.Loop: resumption, the match of interrupts with resume values, and the loop of
-- GraphRun::run. A run meets the saver through the record CheckpointSaver with the laws
-- SaverLaws, which Run.Session.Memory fills with the saver in memory. Run.Compiled and
-- Run.Compiled.Update (src/langgraph/graph/compiled_state_graph.cpp): invoke, resume, replay,
-- getState, getStateHistory and updateState.
--
-- Checkpoint.Types and Checkpoint.Saver (src/langgraph/checkpoint): checkpoints, their checks and
-- keys, and the saver in memory; Checkpoint.Listing (checkpointer.cpp): the order, the filters
-- and the limit of a listing; Checkpoint.Saver.Maintain (in_memory_saver.cpp): list, prune,
-- deleteForRuns; Checkpoint.Copy (checkpointer.cpp): copyThreadWith over any saver.
-- RateLimit.CircuitBreaker and RateLimit.TokenBucket (src/foundation/rate_limit): the two
-- admission controls; the clock is an argument.
--
-- Storage (src/foundation/storage/i_storage.hpp): keys, limits, options and cursors, and the
-- checks on them; Storage.Memory (memory_storage.cpp): the storage in memory, a map in the order
-- of its keys, of which each operation is one step; Storage.Pages: the loop over the pages of a
-- listing, which the saver on a storage has in each of its listings.
--
-- Checkpoint.Hex, Checkpoint.Keys and Checkpoint.Payload
-- (src/langgraph/checkpoint/checkpointer.cpp, storage_saver.cpp): the keys under which
-- checkpoints, writes and the pointer to the latest checkpoint are stored, and their values;
-- Checkpoint.StorageSaver with Read and Maintain (storage_saver.cpp): its operations over any
-- storage, a record StorageCalls, which Checkpoint.StorageSaver.Memory fills with the storage in
-- memory. The codec of checkpoints and the text of JSON are interfaces, with the laws
-- SaverInputs, which hold up to what the codec keeps of a checkpoint (the JSON codec keeps the
-- moment of creation in milliseconds); the time at which a storage writes a key is an argument.
--
-- A text is a sequence of characters, whose size is that of its UTF-8, in bytes. A machine
-- integer keeps its wrap-around where the source can reach it. The search of Graph.Reach runs on
-- fuel: a round for the start, one for each edge, which pushes at most one node, and one to find
-- the stack empty; the groups of Run.Dispatch run on as much fuel as there are tasks, of which
-- each group takes at least one.
--
-- The loop of Storage.Pages runs on fuel, one for each page: as many as there are items, and one,
-- are enough. The loop of Run.Loop runs on fuel, one for each super-step: where the budget bounds
-- the steps, that bound plus one round is enough. What the consumer of a stream answers to an
-- event, cancellation, the deadline and the clock are arguments, one value for each event, step
-- or id.
--
-- Not modelled: the payloads of events, streaming, subgraph nodes, delta histories, the storages
-- on disk, the asynchronous saver, stores, messages, models, tools, and the services of
-- src/foundation other than those above.
pub mod Prelude
pub mod Json
pub mod State
pub mod Storage
pub mod Graph
pub mod RateLimit
pub mod Checkpoint
pub mod Run
pub mod Tests
