-- ===== src/Run/Compiled.antt =====
-- The calls of a compiled graph, src/langgraph/graph/compiled_state_graph.cpp: how `invoke`,
-- `invokeSubgraph`, `resume` and `replay` start a run, and what `getState`, `getStateHistory` and
-- `updateState` do with the checkpointer. Ids that the code generates are arguments.
pub mod Update
use langgraph_cpp.Prelude.{
  ℕ, ◌+◌, ◌%◌, ◌^◌, String, Bool, true, false, Option, none, some, List, [], ◌∷◌, map, Result, ok,
  err, Status, fail, fail_if, or_fail, labelled, ◌>>=◌, ◌>>◌, invalid_argument, failed_precondition,
  not_found, not, ◌&&◌, ◌||◌, ◌==◌, text_key, if◌then◌else◌, has_value, ltb, targets_of,
}
use langgraph_cpp.Prelude.Map.{lookup, contains}
use langgraph_cpp.Json.{JsonLib, Json, fields, json_object}
use langgraph_cpp.State.{Services, State, StateUpdate, state_from_json_value}
use langgraph_cpp.State.Reducer.{apply_state_update}
use langgraph_cpp.Graph.Task.{
  CheckpointTask, start_node, is_terminal_next_tasks, node_ids_from_tasks,
}
use langgraph_cpp.Graph.Types.{StateGraph, Info}
use langgraph_cpp.Graph.Builder.{validate_user_node_id}
use langgraph_cpp.Graph.Route.{
  next_tasks_from_targets, next_tasks_from_checkpoint, replay_start_step, next_tasks_after,
}
use langgraph_cpp.Checkpoint.Types.{
  Checkpoint, CheckpointWrite, CheckpointQuery, CheckpointTuple, latest, query_at,
}
use langgraph_cpp.Checkpoint.Listing.{CheckpointListOptions, newest_first}
use langgraph_cpp.Run.Execute.{RunContext}
use langgraph_cpp.Run.Writes.{validate_state_schema}
use langgraph_cpp.Run.Interrupts.{interrupt_state_key}
use langgraph_cpp.Run.Flow.{Flow}
use langgraph_cpp.Run.Session.{
  GraphRun, Members, RunOptions, RunResult, RunStatus, Surroundings, without_run_error_metadata,
}
use langgraph_cpp.Run.Loop.{run}

module _ ⦃J : JsonLib⦄ where
  pub record StateSnapshot : Type 0 where
    pub values : State
    pub next : List String
    pub tasks : List CheckpointTask
    pub writes : List CheckpointWrite
    pub pending_writes : List CheckpointWrite
    pub thread_id : String
    pub checkpoint_namespace : String
    pub checkpoint_id : String
    pub parent_checkpoint_id : Option String
    pub step : ℕ
    pub created_at : ℕ

  unfoldable pub snapshot_from_checkpoint : Checkpoint → StateSnapshot
  snapshot_from_checkpoint c = record {
    values = c.state;
    next = c.next_nodes;
    tasks = next_tasks_from_checkpoint c;
    writes = c.writes;
    pending_writes = c.pending_writes;
    thread_id = c.thread_id;
    checkpoint_namespace = c.checkpoint_namespace;
    checkpoint_id = c.checkpoint_id;
    parent_checkpoint_id = c.parent_checkpoint_id;
    step = c.step;
    created_at = c.created_at;
  }

  -- `BaseCheckpointSaver`, the part that reads.
  pub record CheckpointReader (σ : Type 0) : Type 0 where
    pub get_tuple : CheckpointQuery → σ → Result (Option CheckpointTuple)
    pub list : CheckpointListOptions → σ → Result (List CheckpointTuple)

  -- `RunOptions`, with the part that names the run.
  pub record CallOptions : Type 0 where
    pub run_id : String
    pub thread_id : String
    pub checkpoint_namespace : String
    pub options : RunOptions

  abbrev or_own : String → String → String
  or_own given own = if given == "" then own else given

  unfoldable pub require_run_checkpointer : CallOptions → String → Result (Unit {0})
  require_run_checkpointer o action =
      fail_if (not o.options.has_checkpointer) invalid_argument
        (labelled action " requires a checkpointer")

  unfoldable pub state_has_interrupt_metadata : State → Bool
  state_has_interrupt_metadata state = contains interrupt_state_key (fields state)

module _ ⦃J : JsonLib⦄ ⦃S : Services⦄ {σ : Type 0} (g : StateGraph) (around : Surroundings σ)
    (reader : CheckpointReader σ) where
  abbrev pub Started : Type 0
  Started = GraphRun σ × Members σ

  -- `runFrom`: the run, and its members at the start.
  unfoldable pub run_from :
      State
      → List CheckpointTask
      → List CheckpointWrite
      → ℕ
      → Option String
      → CallOptions
      → Bool
      → Bool
      → σ
      → Started
  run_from state next pending step parent_id o write_initial allow_parent s = (
    record {
      graph = g;
      context = record {
        run_id = o.run_id;
        thread_id = o.thread_id;
        checkpoint_namespace = o.checkpoint_namespace;
        resume_values = [];
      };
      options = o.options;
      around = around;
      write_initial_checkpoint = write_initial;
      allow_parent_command = allow_parent;
    },
    record {
      state = state;
      step = step;
      status = RunStatus.completed;
      parent_command = none;
      next_tasks = next;
      pending_writes = pending;
      parent_checkpoint_id = parent_id;
      resume_values = [];
      stored = s;
    },
  )

  abbrev start_tasks : List CheckpointTask
  start_tasks = next_tasks_from_targets (targets_of (lookup start_node g.edges))

  unfoldable pub invoke : State → CallOptions → σ → Started
  invoke input o s = run_from input start_tasks [] 0 none o true false s

  unfoldable pub invoke_subgraph : State → CallOptions → σ → Started
  invoke_subgraph input o s = run_from input start_tasks [] 0 none o true true s

  abbrev found : Result (Option CheckpointTuple) → String → Result CheckpointTuple
  found res message = res >>= λ t. or_fail t not_found message

  abbrev is_other_thread : CallOptions → String → Bool
  is_other_thread o thread = not (o.thread_id == "") && not (o.thread_id == thread)

  -- An interrupted checkpoint that has tasks left waits for a command.
  abbrev waits : Checkpoint → CallOptions → Bool
  waits c o =
      state_has_interrupt_metadata c.state
      && not (is_terminal_next_tasks (next_tasks_from_checkpoint c))
      && not (has_value o.options.command)

  abbrev cannot_resume : CallOptions → Bool
  cannot_resume o = elim o.options.command [ none ↦ false | some c ↦ not (has_value c.resume) ]

  -- The run goes on in the thread and, unless the call names one, the checkpoint's namespace.
  abbrev in_thread : CallOptions → String → Checkpoint → CallOptions
  in_thread o thread c = record o {
    thread_id = thread;
    checkpoint_namespace = or_own o.checkpoint_namespace c.checkpoint_namespace;
  }

  unfoldable pub resume : String → CallOptions → σ → Result Started
  resume thread o s = do
    fail_if (thread == "") invalid_argument "resume thread_id cannot be empty"
    fail_if (is_other_thread o thread) invalid_argument
        "resume thread_id conflicts with run options thread_id"
    fail_if (not o.options.has_checkpointer) invalid_argument "resume requires a checkpointer"
    t ←
        found (reader.get_tuple (latest thread o.checkpoint_namespace) s)
          "checkpoint not found for thread"
    fail_if (waits t.checkpoint o) failed_precondition
        "resume of interrupted thread requires Command::resume"
    fail_if (cannot_resume o) invalid_argument "unsupported resume command"
    ok (
        run_from t.checkpoint.state (next_tasks_from_checkpoint t.checkpoint) t.pending_writes
          (replay_start_step t.checkpoint) (some t.checkpoint.checkpoint_id)
          (in_thread o thread t.checkpoint) false false s)

  unfoldable pub get_state : String → CallOptions → σ → Result StateSnapshot
  get_state thread o s = do
    fail_if (thread == "") invalid_argument "getState thread_id cannot be empty"
    require_run_checkpointer o "getState"
    t ←
        found (reader.get_tuple (latest thread o.checkpoint_namespace) s)
          "checkpoint not found for thread"
    ok (snapshot_from_checkpoint t.checkpoint)

  unfoldable pub get_state_at : String → String → CallOptions → σ → Result StateSnapshot
  get_state_at thread id o s = do
    fail_if (thread == "") invalid_argument "getState thread_id cannot be empty"
    fail_if (id == "") invalid_argument "getState checkpoint_id cannot be empty"
    require_run_checkpointer o "getState"
    t ←
        found (reader.get_tuple (query_at thread id o.checkpoint_namespace) s)
          "checkpoint not found"
    ok (snapshot_from_checkpoint t.checkpoint)

  unfoldable pub get_state_history : String → CallOptions → σ → Result (List StateSnapshot)
  get_state_history thread o s = do
    fail_if (thread == "") invalid_argument "getStateHistory thread_id cannot be empty"
    require_run_checkpointer o "getStateHistory"
    ts ←
        reader.list
          (record {
            thread_id = thread;
            checkpoint_namespace = some o.checkpoint_namespace;
            checkpoint_id = none;
            before_checkpoint_id = none;
            limit = none;
            metadata_filter = json_object [];
            order = newest_first;
          })
          s
    ok (map (λ t. snapshot_from_checkpoint t.checkpoint) ts)

  -- What a replay starts from: it waits where the checkpoint is interrupted and no command is given.
  pub data Replay : Type 0 where
    waiting : RunResult → Replay
    starting : Started → Replay

  abbrev latest_step : ℕ → Option CheckpointTuple → ℕ
  latest_step start none = start
  latest_step start (some t) = if ltb t.checkpoint.step start then start else t.checkpoint.step

  abbrev paused_at : CallOptions → String → Checkpoint → RunResult
  paused_at o thread c = record {
    state = c.state;
    run_id = o.run_id;
    thread_id = thread;
    checkpoint_namespace = c.checkpoint_namespace;
    status = RunStatus.paused;
    step = c.step;
    parent_command = none;
  }

  unfoldable pub replay : String → String → CallOptions → σ → Result Replay
  replay thread id o s = do
    fail_if (thread == "") invalid_argument "replay thread_id cannot be empty"
    fail_if (id == "") invalid_argument "replay checkpoint_id cannot be empty"
    fail_if (is_other_thread o thread) invalid_argument
        "replay thread_id conflicts with run options thread_id"
    require_run_checkpointer o "replay"
    t ←
        found (reader.get_tuple (query_at thread id o.checkpoint_namespace) s)
          "checkpoint not found"
    let named = in_thread o thread t.checkpoint
    if waits t.checkpoint o
        then ok (waiting (paused_at o thread t.checkpoint))
        else (reader.get_tuple (latest thread named.checkpoint_namespace) s >>= λ last. ok (
            starting (
              run_from t.checkpoint.state (next_tasks_from_checkpoint t.checkpoint) t.pending_writes
                (latest_step (replay_start_step t.checkpoint) last)
                (some t.checkpoint.checkpoint_id) named false false s)))
