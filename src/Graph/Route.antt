-- ===== src/Graph/Route.antt =====
-- Routing: `nextTasksAfter` and its helpers of src/langgraph/graph/compiled_state_graph.cpp.
pub mod Declared
use langgraph_cpp.Prelude.{
  ℕ, suc, ◌-◌, String, Bool, true, false, Option, none, some, List, [], ◌∷◌, ◌++◌, Result, ok, err,
  fail, fail_if, labelled, ◌>>=◌, ◌>>◌, failed_precondition, invalid_argument, ◌==◌, text_key,
  nat_key, if◌then◌else◌, is_empty, not, ◌&&◌, ltb, member_of, targets_of,
}
use langgraph_cpp.Prelude.Map.{lookup}
use langgraph_cpp.Json.{JsonLib}
use langgraph_cpp.State.{Services, State}
use langgraph_cpp.Graph.Task.{
  CheckpointTask, plain_task, append_plain_task, append_send_task, is_terminal_next_tasks, end_node,
}
use langgraph_cpp.Graph.Types.{StateGraph, RouteTarget, Info}
use langgraph_cpp.Graph.Builder.{has_node_or_end}
use langgraph_cpp.Checkpoint.Types.{Checkpoint}

module _ ⦃J : JsonLib⦄ where
  append_targets : List CheckpointTask → List String → List CheckpointTask
  unfolding append_plain_task
  append_targets tasks [] = tasks
  append_targets tasks (t ∷ ts) = append_targets (append_plain_task tasks (plain_task t)) ts

  pub next_tasks_from_targets : List String → List CheckpointTask
  unfolding append_targets
  next_tasks_from_targets targets = append_targets [] targets

  unfoldable pub next_tasks_from_checkpoint : Checkpoint → List CheckpointTask
  unfolding next_tasks_from_targets
  next_tasks_from_checkpoint c =
      if is_empty c.next_tasks then next_tasks_from_targets c.next_nodes else c.next_tasks

  -- A checkpoint that still has writes to apply is replayed as part of its own step.
  pub replay_start_step : Checkpoint → ℕ
  unfolding is_terminal_next_tasks next_tasks_from_checkpoint
  replay_start_step c =
      if not (is_empty c.pending_writes)
        && not (is_terminal_next_tasks (next_tasks_from_checkpoint c))
        && ltb 0 c.step
      then c.step - 1
      else c.step

  -- `CheckpointTask { .nodeId_ = node, .state_ = arg }`
  abbrev pub send_task : String → State → CheckpointTask
  send_task node arg = record {
    task_id = "";
    node_id = node;
    checkpoint_namespace = "";
    state = some arg;
    order = none;
    error = none;
    interrupts = [];
    metadata = [];
  }

module _ ⦃J : JsonLib⦄ ⦃S : Services⦄ (g : StateGraph) where
  -- Adds the task for one target that a router returned.
  add_target : List CheckpointTask → RouteTarget → Result (List CheckpointTask)
  unfolding append_plain_task append_send_task
  add_target tasks t = elim t.arg [
    | none ↦ ok (append_plain_task tasks (plain_task t.node))
    | some arg ↦
        fail_if (t.node == end_node) invalid_argument "Send target cannot be END"
        >> ok (append_send_task tasks (send_task t.node arg))
  ]

  -- `declared` is empty where the router may lead anywhere.
  check_routed : List String → String → Result (Unit {0})
  check_routed declared node = do
    fail_if (not (has_node_or_end g node)) failed_precondition
        (labelled "router returned unknown node: " node)
    fail_if (not (is_empty declared) && not (member_of node declared)) failed_precondition
        (labelled "router returned a node outside declared destinations: " node)

  add_routed : List String → List RouteTarget → List CheckpointTask → Result (List CheckpointTask)
  unfolding check_routed add_target
  add_routed declared [] tasks = ok tasks
  add_routed declared (t ∷ ts) tasks =
      check_routed declared t.node >> (add_target tasks t >>= add_routed declared ts)

  unfoldable pub next_tasks_after : String → State → Info → Result (List CheckpointTask)
  unfolding add_routed next_tasks_from_targets
  next_tasks_after node state info = elim (lookup node g.routers) [
    | some router ↦ router state info >>= λ routed.
        add_routed (targets_of (lookup node g.router_destinations)) routed []
    | none ↦ ok (next_tasks_from_targets (targets_of (lookup node g.edges)))
  ]
