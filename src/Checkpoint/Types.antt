-- ===== src/Checkpoint/Types.antt =====
-- The types of state_codec.hpp and checkpoint_types.hpp, and the checks and the key of
-- checkpointer.cpp. A moment is a number of ticks.
use langgraph_cpp.Prelude.{
  ℕ, suc, String, Bool, false, Option, none, some, List, [], ◌∷◌, Result, ok, fail_if, not, ◌>>=◌,
  ◌>>◌, invalid_argument, ◌==◌, text_key, if◌then◌else◌, has_value, to_string, labelled,
}
use langgraph_cpp.Json.{JsonLib, Json, as_object}
use langgraph_cpp.State.{State}
use langgraph_cpp.Graph.Task.{CheckpointTask}
use Prim.Native.String.{len}

module _ ⦃J : JsonLib⦄ where
  pub record CheckpointWrite : Type 0 where
    pub task_id : String
    pub task_path : String
    pub node_id : String
    pub checkpoint_namespace : String
    pub update : State
    pub order : Option ℕ
    pub has_next_tasks : Bool
    pub next_tasks : List CheckpointTask
    pub metadata : Json

  pub record Checkpoint : Type 0 where
    pub thread_id : String
    pub checkpoint_id : String
    pub checkpoint_namespace : String
    pub parent_checkpoint_id : Option String
    pub step : ℕ
    pub state : State
    pub next_nodes : List String
    pub next_tasks : List CheckpointTask
    pub writes : List CheckpointWrite
    pub pending_writes : List CheckpointWrite
    pub channel_versions : Json
    pub versions_seen : Json
    pub updated_channels : List String
    pub metadata : Json
    pub created_at : ℕ

  pub record CheckpointQuery : Type 0 where
    pub thread_id : String
    pub checkpoint_namespace : String
    pub checkpoint_id : Option String

  pub record CheckpointWriteSet : Type 0 where
    pub thread_id : String
    pub checkpoint_namespace : String
    pub checkpoint_id : String
    pub task_id : String
    pub task_path : String
    pub writes : List CheckpointWrite

  pub record CheckpointTuple : Type 0 where
    pub checkpoint : Checkpoint
    pub pending_writes : List CheckpointWrite

  pub record CheckpointMaintenanceResult : Type 0 where
    pub removed : ℕ
    pub remaining : ℕ
    pub latest_checkpoint_id : String

  -- `CheckpointQuery::latest` and `CheckpointQuery::at`.
  unfoldable pub latest : String → String → CheckpointQuery
  latest thread ns = record { thread_id = thread; checkpoint_namespace = ns; checkpoint_id = none }

  unfoldable pub query_at : String → String → String → CheckpointQuery
  query_at thread id ns = record {
    thread_id = thread;
    checkpoint_namespace = ns;
    checkpoint_id = some id;
  }

  unfoldable pub validate_checkpoint_for_store : Checkpoint → Result (Unit {0})
  validate_checkpoint_for_store c = do
    fail_if (c.thread_id == "") invalid_argument "checkpoint thread_id cannot be empty"
    fail_if (c.checkpoint_id == "") invalid_argument "checkpoint checkpoint_id cannot be empty"

  abbrev pub is_blank : Option String → Bool
  is_blank none = false
  is_blank (some s) = s == ""

  unfoldable pub validate_checkpoint_query : CheckpointQuery → Result (Unit {0})
  validate_checkpoint_query q = do
    fail_if (q.thread_id == "") invalid_argument "checkpoint query thread_id cannot be empty"
    fail_if (is_blank q.checkpoint_id) invalid_argument
        "checkpoint query checkpoint_id cannot be empty"

  abbrev pub or_default : String → String → String
  or_default s default = if s == "" then default else s

  abbrev or_index : Option ℕ → ℕ → ℕ
  or_index none i = i
  or_index (some n) i = n

  -- The `i`-th write of a set, with what it leaves out filled in.
  pub complete_write : CheckpointWriteSet → ℕ → CheckpointWrite → CheckpointWrite
  complete_write set i w = record {
    task_id = or_default w.task_id set.task_id;
    task_path = or_default w.task_path set.task_path;
    node_id = w.node_id;
    checkpoint_namespace = or_default w.checkpoint_namespace set.checkpoint_namespace;
    update = w.update;
    order = some (or_index w.order i);
    has_next_tasks = w.has_next_tasks;
    next_tasks = w.next_tasks;
    metadata = w.metadata;
  }

  check_write : CheckpointWrite → Result (Unit {0})
  check_write w = do
    fail_if (w.node_id == "") invalid_argument "checkpoint write node_id cannot be empty"
    fail_if (not (has_value (as_object w.metadata))) invalid_argument
        "checkpoint write metadata must be an object"

  normalize_writes : CheckpointWriteSet → ℕ → List CheckpointWrite → Result (List CheckpointWrite)
  unfolding check_write complete_write
  normalize_writes set i [] = ok []
  normalize_writes set i (w ∷ ws) =
      check_write w
      >> (normalize_writes set (suc i) ws >>= λ rest. ok (complete_write set i w ∷ rest))

  -- `normalizeWriteSet`: the writes of the set, completed.
  unfoldable pub normalize_write_set : CheckpointWriteSet → Result (List CheckpointWrite)
  unfolding normalize_writes
  normalize_write_set set = do
    fail_if (set.thread_id == "") invalid_argument "checkpoint writes thread_id cannot be empty"
    fail_if (set.checkpoint_id == "") invalid_argument
        "checkpoint writes checkpoint_id cannot be empty"
    fail_if (set.task_id == "") invalid_argument "checkpoint writes task_id cannot be empty"
    normalize_writes set 0 set.writes

  -- A name behind its length in bytes.
  unfoldable pub sized : String → String
  unfolding to_string
  sized s = labelled (labelled (to_string (len s)) ":") s

  unfoldable pub checkpoint_write_storage_key : String → String → String → String
  unfolding sized
  checkpoint_write_storage_key thread ns id =
      labelled (labelled (sized thread) "|") (labelled (labelled (sized ns) "|") (sized id))

  abbrev pub key_of : Checkpoint → String
  key_of c = checkpoint_write_storage_key c.thread_id c.checkpoint_namespace c.checkpoint_id
