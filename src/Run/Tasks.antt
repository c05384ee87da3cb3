-- ===== src/Run/Tasks.antt =====
-- `annotateTasks`: what a super-step fills in on its tasks.
pub mod Numbers
use langgraph_cpp.Prelude.{
  ℕ, suc, String, Bool, Option, none, some, List, [], ◌∷◌, ◌==◌, text_key, if◌then◌else◌, labelled,
  to_string, ◌||◌,
}
use langgraph_cpp.Json.{JsonLib}
use langgraph_cpp.Graph.Task.{CheckpointTask, is_end}
use langgraph_cpp.Run.Execute.{RunContext}

module _ ⦃J : JsonLib⦄ (run : RunContext) (step : ℕ) where
  -- `<run>:<step>:<index>:<node>`
  pub new_task_id : ℕ → String → String
  unfolding to_string
  new_task_id i node =
      labelled
        (labelled
          (labelled (labelled (labelled (labelled run.run_id ":") (to_string step)) ":")
            (to_string i))
          ":")
        node

  abbrev or_position : Option ℕ → ℕ → ℕ
  or_position none i = i
  or_position (some n) i = n

  pub annotate_task : ℕ → CheckpointTask → CheckpointTask
  unfolding new_task_id
  annotate_task i t = if is_end t.node_id then t else record {
    task_id = if t.task_id == "" then new_task_id i t.node_id else t.task_id;
    node_id = t.node_id;
    checkpoint_namespace =
        if t.checkpoint_namespace == "" then run.checkpoint_namespace else t.checkpoint_namespace;
    state = t.state;
    order = some (or_position t.order i);
    error = t.error;
    interrupts = t.interrupts;
    metadata = t.metadata;
  }

  pub annotate_from : ℕ → List CheckpointTask → List CheckpointTask
  unfolding annotate_task
  annotate_from i [] = []
  annotate_from i (t ∷ ts) = annotate_task i t ∷ annotate_from (suc i) ts

  pub annotate_tasks : List CheckpointTask → List CheckpointTask
  unfolding annotate_from
  annotate_tasks ts = annotate_from 0 ts
