-- ===== src/Run/Compiled/Update.antt =====
-- `updateState`: a checkpoint made from the outside.
pub mod Read
use langgraph_cpp.Prelude.{
  ℕ, ◌+◌, ◌%◌, ◌^◌, String, Bool, true, false, Option, none, some, List, [], ◌∷◌, Result, ok, err,
  Status, fail_if, or_fail, labelled, ◌>>=◌, ◌>>◌, invalid_argument, failed_precondition, not_found,
  not, ◌&&◌, ◌==◌, text_key, if◌then◌else◌, ltb,
}
use langgraph_cpp.Prelude.Map.{contains}
use langgraph_cpp.Json.{JsonLib, json_object}
use langgraph_cpp.State.{Services, State, StateUpdate, state_from_json_value}
use langgraph_cpp.State.Reducer.{apply_state_update}
use langgraph_cpp.Graph.Task.{CheckpointTask, node_ids_from_tasks}
use langgraph_cpp.Graph.Types.{StateGraph}
use langgraph_cpp.Graph.Builder.{validate_user_node_id}
use langgraph_cpp.Graph.Route.{next_tasks_from_checkpoint, next_tasks_after}
use langgraph_cpp.Checkpoint.Types.{Checkpoint, CheckpointTuple, latest, query_at}
use langgraph_cpp.Run.Writes.{validate_state_schema}
use langgraph_cpp.Run.Session.{Surroundings, without_run_error_metadata}
use langgraph_cpp.Run.Compiled.{
  StateSnapshot, snapshot_from_checkpoint, CheckpointReader, CallOptions, require_run_checkpointer,
}

pub record StateUpdateOptions : Type 0 where
  pub checkpoint_id : String
  pub as_node : Option String

module _ ⦃J : JsonLib⦄ where
  -- What an update comes to: the checkpoint that it starts from, and what its own will hold.
  pub record UpdatePlan : Type 0 where
    pub base : Checkpoint
    pub checkpoint_namespace : String
    pub step : ℕ
    pub state : State
    pub next_tasks : List CheckpointTask
    pub written : State

  abbrev next_step : ℕ → ℕ
  next_step step = (step + 1) % 2 ^ 64

  -- Behind the latest checkpoint of the namespace.
  abbrev step_behind : ℕ → Option CheckpointTuple → ℕ
  step_behind step none = step
  step_behind step (some t) =
      if ltb t.checkpoint.step step then step else next_step t.checkpoint.step

  abbrev node_or_update : Option String → String
  node_or_update none = "__update__"
  node_or_update (some node) = node

  unfoldable pub planned_checkpoint :
      String → String → ℕ → StateUpdateOptions → UpdatePlan → Checkpoint
  planned_checkpoint thread id now u plan = record {
    thread_id = thread;
    checkpoint_id = id;
    checkpoint_namespace = plan.checkpoint_namespace;
    parent_checkpoint_id = some plan.base.checkpoint_id;
    step = plan.step;
    state = plan.state;
    next_nodes = node_ids_from_tasks plan.next_tasks;
    next_tasks = plan.next_tasks;
    writes =
        record {
          task_id = "";
          task_path = "";
          node_id = node_or_update u.as_node;
          checkpoint_namespace = "";
          update = plan.written;
          order = none;
          has_next_tasks = false;
          next_tasks = [];
          metadata = json_object [];
        }
        ∷ [];
    pending_writes = [];
    channel_versions = json_object [];
    versions_seen = json_object [];
    updated_channels = [];
    metadata = json_object [];
    created_at = now;
  }

module _ ⦃J : JsonLib⦄ ⦃S : Services⦄ {σ : Type 0} (g : StateGraph) (around : Surroundings σ)
    (reader : CheckpointReader σ) (thread : String) (update : StateUpdate) (o : CallOptions)
    (u : StateUpdateOptions) where
  -- The tasks that follow: those of the checkpoint, or those after the node that the update stands
  -- for.
  unfoldable pub update_tasks :
      String → String → ℕ → State → Checkpoint → Option String → Result (List CheckpointTask)
  update_tasks run_id ns step state base none = ok (next_tasks_from_checkpoint base)
  update_tasks run_id ns step state base (some node) = do
    validate_user_node_id node
    fail_if (not (contains node g.nodes)) failed_precondition
        (labelled "updateState asNode is unknown: " node)
    next_tasks_after g node state (record {
      run_id = run_id;
      thread_id = thread;
      checkpoint_namespace = ns;
      task_id = "";
      step = step;
      node_id = node;
      attempt = 1;
      resume_value = none;
    })

  unfoldable pub update_base : σ → Result CheckpointTuple
  update_base s =
      (if u.checkpoint_id == ""
        then reader.get_tuple (latest thread o.checkpoint_namespace) s
        else reader.get_tuple (query_at thread u.checkpoint_id o.checkpoint_namespace) s)
      >>= λ t. or_fail t not_found "checkpoint not found"

  -- Everything but the call of `put`; `run_id` is the id made for the route.
  unfoldable pub update_plan : String → σ → Result UpdatePlan
  update_plan run_id s = do
    fail_if (thread == "") invalid_argument "updateState thread_id cannot be empty"
    fail_if (not (o.thread_id == "") && not (o.thread_id == thread)) invalid_argument
        "updateState thread_id conflicts with run options thread_id"
    require_run_checkpointer o "updateState"
    t ← update_base s
    let base = t.checkpoint
    let ns =
        if o.checkpoint_namespace == "" then base.checkpoint_namespace else o.checkpoint_namespace
    last ← reader.get_tuple (latest thread ns) s
    let step = step_behind (next_step base.step) last
    clean ← without_run_error_metadata base.state
    state ← apply_state_update clean update o.options.reducers
    validate_state_schema g o.options.reducers (λ w n. ok tt) g.schemas.state_schema "state" state
    next ← update_tasks run_id ns step state base u.as_node
    written ← state_from_json_value update
    ok (record {
      base = base;
      checkpoint_namespace = ns;
      step = step;
      state = state;
      next_tasks = next;
      written = written;
    })

  abbrev pub stored : Checkpoint → σ × Result (Unit {0}) → σ × Result StateSnapshot
  stored c (s, ok _) = (s, ok (snapshot_from_checkpoint c))
  stored c (s, err e) = (s, err e)

  abbrev pub carried_out : String → σ → Result UpdatePlan → σ × Result StateSnapshot
  carried_out id s (err e) = (s, err e)
  carried_out id s (ok plan) =
      let c = planned_checkpoint thread id (around.clock id) u plan in
      stored c (around.saver.put c s)

  -- `id` is the id made for the checkpoint.
  unfoldable pub update_state : String → String → σ → σ × Result StateSnapshot
  update_state run_id id s = carried_out id s (update_plan run_id s)
