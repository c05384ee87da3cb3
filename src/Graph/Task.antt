-- ===== src/Graph/Task.antt =====
-- The tasks of a super-step: `CheckpointTask` and the task lists of graph_run.cpp.
pub mod Normal
use langgraph_cpp.Prelude.{
  ℕ, suc, String, Bool, true, false, Option, none, some, List, [], ◌∷◌, ◌++◌, map, not, ◌&&◌, ◌||◌,
  ◌==◌, text_key, if◌then◌else◌, has_value, any, every, Status, labelled,
}
use langgraph_cpp.Json.{JsonLib, Json}
use langgraph_cpp.State.{State}

abbrev pub start_node : String
start_node = "__start__"

abbrev pub end_node : String
end_node = "__end__"

-- `task.nodeId_.empty() || task.nodeId_ == END`
abbrev pub is_end : String → Bool
is_end node = node == "" || node == end_node

module _ ⦃J : JsonLib⦄ where
  pub record CheckpointTask : Type 0 where
    pub task_id : String
    pub node_id : String
    pub checkpoint_namespace : String
    pub state : Option State
    pub order : Option ℕ
    pub error : Option String
    pub interrupts : List Json
    pub metadata : List (String × Json)

  -- `CheckpointTask { .nodeId_ = node }`
  abbrev pub plain_task : String → CheckpointTask
  plain_task node = record {
    task_id = "";
    node_id = node;
    checkpoint_namespace = "";
    state = none;
    order = none;
    error = none;
    interrupts = [];
    metadata = [];
  }

  -- A task that an unnumbered task for `node` would repeat.
  abbrev pub repeats : String → CheckpointTask → Bool
  repeats node t = not (has_value t.state) && not (has_value t.order) && t.node_id == node

  unfoldable pub append_plain_task : List CheckpointTask → CheckpointTask → List CheckpointTask
  append_plain_task tasks task =
      if is_end task.node_id
      then tasks
      else if has_value task.order
      then tasks ++ task ∷ []
      else if any (repeats task.node_id) tasks
      then tasks
      else tasks ++ task ∷ []

  unfoldable pub append_send_task : List CheckpointTask → CheckpointTask → List CheckpointTask
  append_send_task tasks task = if is_end task.node_id then tasks else tasks ++ task ∷ []

  unfoldable pub append_task : List CheckpointTask → CheckpointTask → List CheckpointTask
  unfolding append_plain_task append_send_task
  append_task tasks task =
      if has_value task.state then append_send_task tasks task else append_plain_task tasks task

  pub append_tasks : List CheckpointTask → List CheckpointTask → List CheckpointTask
  append_tasks tasks [] = tasks
  append_tasks tasks (t ∷ ts) = append_tasks (append_task tasks t) ts

  unfoldable pub normalize_next_tasks : List CheckpointTask → List CheckpointTask
  unfolding append_tasks append_task
  normalize_next_tasks tasks = append_tasks [] tasks

  unfoldable pub node_ids_from_tasks : List CheckpointTask → List String
  node_ids_from_tasks [] = []
  node_ids_from_tasks (t ∷ ts) =
      let rest = node_ids_from_tasks ts in if is_end t.node_id then rest else t.node_id ∷ rest

  unfoldable pub is_terminal_next_tasks : List CheckpointTask → Bool
  unfolding every
  is_terminal_next_tasks = every (λ t. is_end t.node_id)
