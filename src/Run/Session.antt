-- ===== src/Run/Session.antt =====
-- The members of a `GraphRun`, its calls of the checkpointer, and `putCheckpoint` and `failRun`. An
-- event whose answer the code ignores is left out.
pub mod Frame
pub mod Stored
pub mod Failed
pub mod Memory
pub mod Repeated
use langgraph_cpp.Prelude.{
  ℕ, String, Bool, true, false, Option, none, some, List, [], ◌∷◌, Result, ok, err, Status,
  labelled, to_string, ◌==◌, text_key, not, ◌&&◌, ◌||◌, if◌then◌else◌, is_empty, length,
  status_text, code_name, resource_exhausted, StatusCode,
}
use langgraph_cpp.Prelude.Map.{Map, insert, erase}
use langgraph_cpp.Json.{JsonLib, Json, fields, json_object, json_text, json_unsigned}
use langgraph_cpp.State.{Services, State, state_from_json_value}
use langgraph_cpp.State.Reducer.{ReducerRegistry}
use langgraph_cpp.Graph.Task.{CheckpointTask, plain_task, normalize_next_tasks, node_ids_from_tasks}
use langgraph_cpp.Graph.Types.{StateGraph, NodeOutput, Interrupt, Command}
use langgraph_cpp.Checkpoint.Types.{Checkpoint, CheckpointWrite, CheckpointWriteSet}
use langgraph_cpp.Run.Execute.{RunContext, CancelChecks}
use langgraph_cpp.Run.Dispatch.{Dispatch}
use langgraph_cpp.Run.Tasks.{annotate_tasks}
use langgraph_cpp.Run.Budget.{ResourceLimits}
use langgraph_cpp.Run.Flow.{
  Flow, Act, proceeds, stops, pure, leave, read, attempt, modify, when, ◌>>=◌, ◌>>◌,
}
use text.Mathlib.Text.{starts_with}

abbrev pub run_error_state_key : String
run_error_state_key = "__run_error__"

pub data Durability : Type 0 where
  sync async exit : Durability

unfoldable pub durability_mode_name : Durability → String
durability_mode_name sync = "sync"
durability_mode_name async = "async"
durability_mode_name exit = "exit"

pub data RunStatus : Type 0 where
  completed paused failed cancelled max_steps_exceeded : RunStatus

-- `std::string::contains`
unfoldable pub contains_text : String → String → Bool
contains_text String.[] part = part == ""
contains_text (String.◌∷◌ c s) part =
    let later = contains_text s part in starts_with (String.◌∷◌ c s) part || later

unfoldable pub run_status_from_status : Status → RunStatus
run_status_from_status s = elim s.code [
  | StatusCode.cancelled ↦ cancelled
  | resource_exhausted ↦ if contains_text s.message "max steps" then max_steps_exceeded else failed
  | _ ↦ failed
]

-- The "status" of the error metadata.
abbrev run_status_name : RunStatus → String
run_status_name cancelled = "cancelled"
run_status_name max_steps_exceeded = "max_steps_exceeded"
run_status_name _ = "failed"

module _ ⦃J : JsonLib⦄ where
  -- The events whose answer the run looks at, each with what tells it from the others of its run.
  pub data Event : Type 0 where
    run_started : Event
    checkpoint_created : Checkpoint → Event
    node_started : ℕ → CheckpointTask → Event
    node_completed : ℕ → CheckpointTask → NodeOutput → Event
    state_updated : ℕ → CheckpointWrite → Event
    interrupt_requested : ℕ → String → Interrupt → Event
    run_completed : ℕ → State → Bool → Event

  -- `BaseCheckpointSaver`, the part that a run calls.
  pub record CheckpointSaver (σ : Type 0) : Type 0 where
    pub put : Checkpoint → σ → σ × Result (Unit {0})
    pub put_writes : CheckpointWriteSet → σ → σ × Result (Unit {0})

  pub record RunOptions : Type 0 where
    pub durability : Durability
    pub reducers : ReducerRegistry
    pub limits : ResourceLimits
    pub command : Option Command
    pub has_checkpointer : Bool

  -- What a run asks of what is around it: the event callback and sink, by the event; the
  -- cancellation token and the deadline, by the step; the moment at which a checkpoint is built.
  pub record Surroundings (σ : Type 0) : Type 0 where
    pub emit : Event → Result (Unit {0})
    pub cancelled_at : ℕ → Result (Unit {0})
    pub expired_at : ℕ → Bool
    pub checks_at : ℕ → CancelChecks
    pub dispatch_at : ℕ → Dispatch
    pub clock : String → ℕ
    pub saver : CheckpointSaver σ

  -- The members that a run changes; `result_` among them, less the collected events.
  pub record Members (σ : Type 0) : Type 0 where
    pub state : State
    pub step : ℕ
    pub status : RunStatus
    pub parent_command : Option Command
    pub next_tasks : List CheckpointTask
    pub pending_writes : List CheckpointWrite
    pub parent_checkpoint_id : Option String
    pub resume_values : Map ℕ Json
    pub stored : σ

  pub record RunResult : Type 0 where
    pub state : State
    pub run_id : String
    pub thread_id : String
    pub checkpoint_namespace : String
    pub status : RunStatus
    pub step : ℕ
    pub parent_command : Option Command

  unfoldable pub error_block : Status → String → ℕ → Json
  error_block s node step = json_object (
      insert "status" (json_text (run_status_name (run_status_from_status s))) (
        insert "step" (json_unsigned step) (
          insert "node" (json_text node) (
            insert "message" (json_text (status_text s))
              (insert "code" (json_text (code_name s.code)) [])))))

  module _ ⦃S : Services⦄ where
    unfoldable pub with_run_error_metadata : State → Status → String → ℕ → Result State
    with_run_error_metadata state s node step =
        state_from_json_value
          (json_object (insert run_error_state_key (error_block s node step) (fields state)))

    unfoldable pub without_run_error_metadata : State → Result State
    without_run_error_metadata state =
        state_from_json_value (json_object (erase run_error_state_key (fields state)))

-- The members that a run keeps as they are.
pub record GraphRun ⦃J : JsonLib⦄ ⦃S : Services⦄ (σ : Type 0) : Type 0 where
  pub graph : StateGraph
  pub context : RunContext
  pub options : RunOptions
  pub around : Surroundings σ
  pub write_initial_checkpoint : Bool
  pub allow_parent_command : Bool

module _ ⦃J : JsonLib⦄ ⦃S : Services⦄ {σ : Type 0} (r : GraphRun σ) where
  abbrev pub Part : Type 0 → Type 0
  Part A = Act (Members σ) (Result RunResult) A

  unfoldable pub result_of : Members σ → RunResult
  result_of m = record {
    state = m.state;
    run_id = r.context.run_id;
    thread_id = r.context.thread_id;
    checkpoint_namespace = r.context.checkpoint_namespace;
    status = m.status;
    step = m.step;
    parent_command = m.parent_command;
  }

  -- `return result;`
  unfoldable pub return_result : {A : Type 0} → Part A
  return_result m = (m, stops (ok (result_of m)))

  -- `<run>-step-<n>`, and `<run>-step-<n>-writes-<k>` while tasks remain.
  unfoldable pub new_checkpoint_id : String → ℕ → ℕ → String
  new_checkpoint_id source step count =
      let base = labelled (labelled r.context.run_id "-step-") (to_string step) in
      if source == "task_writes"
      then labelled (labelled base "-writes-") (to_string count)
      else base

  unfoldable pub should_store : String → Bool → Bool
  should_store source terminal = elim r.options.durability [
    | exit ↦ source == "initial" || terminal
    | _ ↦ true
  ]

  unfoldable pub new_checkpoint :
      String
      → ℕ
      → List CheckpointTask
      → List CheckpointWrite
      → List CheckpointWrite
      → Members σ
      → Checkpoint
  new_checkpoint source step next writes pending m =
      let tasks = annotate_tasks r.context step (normalize_next_tasks next) in
      let id = new_checkpoint_id source step (length pending) in
      record {
        thread_id = r.context.thread_id;
        checkpoint_id = id;
        checkpoint_namespace = r.context.checkpoint_namespace;
        parent_checkpoint_id = m.parent_checkpoint_id;
        step = step;
        state = m.state;
        next_nodes = node_ids_from_tasks tasks;
        next_tasks = tasks;
        writes = writes;
        pending_writes = pending;
        channel_versions = json_object [];
        versions_seen = json_object [];
        updated_channels = [];
        metadata = json_object (
            insert "durability" (json_text (durability_mode_name r.options.durability))
              (insert "source" (json_text source) []));
        created_at = r.around.clock id;
      }

  -- A call of the checkpointer; its failure is what the run returns.
  abbrev pub after_call :
      Members σ → σ × Result (Unit {0}) → Members σ × Flow (Result RunResult) (Unit {0})
  after_call m (stored, ok u) = (record m { stored = stored }, proceeds tt)
  after_call m (stored, err e) = (record m { stored = stored }, stops (err e))

  unfoldable pub save : Checkpoint → Part (Unit {0})
  save c m = after_call m (r.around.saver.put c m.stored)

  unfoldable pub save_writes : String → Checkpoint → Part (Unit {0})
  save_writes source c m = after_call m (
      r.around.saver.put_writes
        (record {
          thread_id = c.thread_id;
          checkpoint_namespace = c.checkpoint_namespace;
          checkpoint_id = c.checkpoint_id;
          task_id = c.checkpoint_id;
          task_path = source;
          writes = c.pending_writes;
        })
        m.stored)

  -- The checkpoint goes to the saver, where there is one, and becomes the parent of the next one.
  unfoldable pub store_checkpoint : String → Bool → Checkpoint → Part (Unit {0})
  store_checkpoint source require_event c = do
    when r.options.has_checkpointer (save c)
    when (r.options.has_checkpointer && not (is_empty c.pending_writes)) (save_writes source c)
    modify (λ m. record m { parent_checkpoint_id = some c.checkpoint_id })
    when require_event (attempt (r.around.emit (checkpoint_created c)) (λ e. leave (err e)))

  -- A failure of `putCheckpoint` is what every caller returns.
  unfoldable pub put_checkpoint :
      ℕ
      → List CheckpointTask
      → List CheckpointWrite
      → List CheckpointWrite
      → String
      → Bool
      → Bool
      → Part (Unit {0})
  put_checkpoint step next writes pending source terminal require_event = do
    c ← read (new_checkpoint source step next writes pending)
    when (should_store source terminal) (store_checkpoint source require_event c)

  -- A failure whose tasks are not known leaves the failed node.
  unfoldable pub failure_tasks : String → List CheckpointTask → List CheckpointTask
  failure_tasks node next =
      let tasks = normalize_next_tasks next in
      if is_empty tasks && not (node == "") then plain_task node ∷ [] else tasks

  unfoldable pub store_failure :
      Status → ℕ → String → List CheckpointTask → List CheckpointWrite → Part (Unit {0})
  store_failure s step node next pending = do
    modify (λ m. record m { status = run_status_from_status s })
    m ← read (λ m. m)
    marked ← attempt (with_run_error_metadata m.state s node step) (λ e. leave (err e))
    modify (λ m. record m { state = marked })
    put_checkpoint step (failure_tasks node next) [] pending "failure" true false

  unfoldable pub fail_run :
      {A : Type 0} → Status → ℕ → String → List CheckpointTask → List CheckpointWrite → Part A
  fail_run s step node next pending = store_failure s step node next pending >> return_result
