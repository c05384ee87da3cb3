-- ===== src/Run/Writes.antt =====
-- The writes of a super-step: `commandTasksAfter`, `writeFromExecution`, `applyWrite`
-- and `routeFromWrite`.
use langgraph_cpp.Prelude.{
  ℕ, ◌^◌, ◌-◌, String, Bool, true, false, Option, none, some, List, [], ◌∷◌, Result, ok, err,
  status_text, fail, fail_if, labelled, ◌>>=◌, ◌>>◌, failed_precondition, not, ◌&&◌, if◌then◌else◌,
  is_empty, ltb, text_key, member_of, targets_of,
}
use langgraph_cpp.Prelude.Map.{lookup, insert}
use langgraph_cpp.Json.{JsonLib, Json, json_object, json_text}
use langgraph_cpp.State.{Services, State, state_from_json_value, update_from_json_value}
use langgraph_cpp.State.Reducer.{ReducerRegistry, apply_state_update}
use langgraph_cpp.Graph.Task.{CheckpointTask, plain_task, append_plain_task, append_task}
use langgraph_cpp.Graph.Types.{StateGraph, NodeOutput, Command, current, parent}
use langgraph_cpp.Graph.Builder.{has_node_or_end}
use langgraph_cpp.Graph.Route.{next_tasks_after}
use langgraph_cpp.Checkpoint.Types.{CheckpointWrite}
use langgraph_cpp.Run.Execute.{RunContext}

module _ ⦃J : JsonLib⦄ where
  abbrev pub order_value : Option ℕ → ℕ
  order_value none = 2 ^ 64 - 1
  order_value (some n) = n

  -- A write without a number comes after those with one.
  unfoldable pub write_order_less : CheckpointWrite → CheckpointWrite → Bool
  write_order_less a b = ltb (order_value a.order) (order_value b.order)

module _ ⦃J : JsonLib⦄ ⦃S : Services⦄ (g : StateGraph) where
  -- `declared` is empty where the node's commands may lead anywhere.
  check_goto : List String → String → Result (Unit {0})
  check_goto declared target = do
    fail_if (not (has_node_or_end g target)) failed_precondition
        (labelled "command returned unknown node: " target)
    fail_if (not (is_empty declared) && not (member_of target declared)) failed_precondition
        (labelled "command returned a node outside declared destinations: " target)

  add_goto : List String → List String → List CheckpointTask → Result (List CheckpointTask)
  unfolding check_goto append_plain_task
  add_goto declared [] tasks = ok tasks
  add_goto declared (t ∷ ts) tasks =
      check_goto declared t >> add_goto declared ts (append_plain_task tasks (plain_task t))

  unfoldable pub command_tasks_after : CheckpointTask → Command → Result (List CheckpointTask)
  unfolding add_goto
  command_tasks_after task command = elim command.graph [
    | parent ↦ ok []
    | current ↦ add_goto (targets_of (lookup task.node_id g.command_destinations)) command.goto []
  ]

  -- `{ { "source", "node" } }`
  abbrev node_metadata : Json
  node_metadata = json_object (insert "source" (json_text "node") [])

  unfoldable pub write_with :
      CheckpointTask → String → State → Bool → List CheckpointTask → CheckpointWrite
  write_with task ns update has_next next = record {
    task_id = task.task_id;
    task_path = "";
    node_id = task.node_id;
    checkpoint_namespace = ns;
    update = update;
    order = task.order;
    has_next_tasks = has_next;
    next_tasks = next;
    metadata = node_metadata;
  }

  unfoldable pub write_from_execution :
      RunContext → CheckpointTask → NodeOutput → Result CheckpointWrite
  unfolding command_tasks_after write_with
  write_from_execution run task output = do
    update ← state_from_json_value output.update
    elim output.command [
      | none ↦ ok (write_with task run.checkpoint_namespace update false [])
      | some command ↦ command_tasks_after task command >>= λ next.
          ok (write_with task run.checkpoint_namespace update true next)
    ]

  module _ (registry : ReducerRegistry) (publish : CheckpointWrite → ℕ → Result (Unit {0})) where
    -- `validateStateSchema`
    unfoldable pub validate_state_schema : Option S.Schema → String → State → Result (Unit {0})
    validate_state_schema none label state = ok tt
    validate_state_schema (some schema) label state = elim (S.check_schema state schema) [
      | ok _ ↦ ok tt
      | err s ↦
          fail s.code (labelled (labelled label " schema validation failed: ") (status_text s))
    ]

    -- The run's state behind the call, and how the call ends: the state is set once the update is
    -- merged, before it is checked and the event is published.
    unfoldable pub apply_write : ℕ → CheckpointWrite → State → State × Result (Unit {0})
    unfolding validate_state_schema
    apply_write step w state =
        elim (update_from_json_value w.update >>= λ u. apply_state_update state u registry) [
          | err s ↦ (state, err s)
          | ok merged ↦ (
            merged,
            validate_state_schema g.schemas.state_schema "state" merged >> publish w step,
          )
        ]

  append_all : List CheckpointTask → List CheckpointTask → List CheckpointTask
  unfolding append_task
  append_all next [] = next
  append_all next (t ∷ ts) = append_all (append_task next t) ts

  -- `routeFromWrite`; a command's own targets take the place of the node's routes.
  pub route_from_write :
      RunContext → State → ℕ → CheckpointWrite → List CheckpointTask → Result (List CheckpointTask)
  unfolding append_all next_tasks_after
  route_from_write run state step w next =
      if w.has_next_tasks
      then ok (append_all next w.next_tasks)
      else (next_tasks_after g w.node_id state (record {
        run_id = run.run_id;
        thread_id = run.thread_id;
        checkpoint_namespace = run.checkpoint_namespace;
        task_id = "";
        step = step;
        node_id = w.node_id;
        attempt = 1;
        resume_value = none;
      })
          >>= λ routed. ok (append_all next routed))
