-- ===== src/Run/Tasks/Numbers.antt =====
-- What annotated tasks are like.
use langgraph_cpp.Prelude.{
  ℕ, suc, ◌<◌, String, ◌≡◌, refl, ap, true, false, List, [], ◌∷◌, ◌==◌, ◌||◌, text_key, nat_key,
  if◌then◌else◌, All, arith, Bool-cases, inl, inr, key_eq_iff, has_value, labelled, to_string,
}
use langgraph_cpp.Json.{JsonLib}
use langgraph_cpp.Graph.Task.{CheckpointTask, is_end, node_ids_from_tasks}
use Prim.Native.String.{len}
use text.Mathlib.TextPositions.{len-append}
use langgraph_cpp.Run.Execute.{RunContext}
use langgraph_cpp.Run.Tasks.{annotate_task, annotate_from, annotate_tasks, new_task_id}

module _ ⦃J : JsonLib⦄ (run : RunContext) (step : ℕ) where
  -- A task that runs a node has a number and an id.
  abbrev pub IsAnnotated : CheckpointTask → Type 0
  IsAnnotated t =
      ((is_end t.node_id || has_value t.order) ≡ true)
      × ((is_end t.node_id || (if t.task_id == "" then false else true)) ≡ true)

  ends_in_colon : (s : String) → 0 < len (labelled s ":")
  ends_in_colon s = omega (arith, len-append s ":")

  new_task_id-ne : (i : ℕ) (node : String) → (new_task_id run step i node == "") ≡ false
  unfolding new_task_id
  new_task_id-ne i node =
      let head =
        labelled (labelled (labelled (labelled run.run_id ":") (to_string step)) ":")
          (to_string i) in
      let long : 0 < len (new_task_id run step i node) =
        omega (arith, ends_in_colon head, len-append (labelled head ":") node) in
      elim (Bool-cases (new_task_id run step i node == "")) [
        | inl empty ↦
            let none_left : len (new_task_id run step i node) ≡ 0 =
              ap len ((key_eq_iff (new_task_id run step i node) "").0 empty) in
            ground (arith, long, none_left)
        | inr named ↦ named
      ]

  annotate_task-IsAnnotated :
      (i : ℕ) (t : CheckpointTask) → IsAnnotated (annotate_task run step i t)
  unfolding annotate_task
  annotate_task-IsAnnotated i t = ground (arith, new_task_id-ne i t.node_id)

  annotate_task-again :
      (next i j : ℕ) (t : CheckpointTask)
      → annotate_task run next j (annotate_task run step i t) ≡ annotate_task run step i t
  unfolding annotate_task
  annotate_task-again next i j t = ground (arith, new_task_id-ne i t.node_id)

  annotate_from-again :
      (next i j : ℕ) (ts : List CheckpointTask)
      → annotate_from run next j (annotate_from run step i ts) ≡ annotate_from run step i ts
  unfolding annotate_from
  annotate_from-again next i j [] = refl
  annotate_from-again next i j (t ∷ ts) =
      cc (annotate_task-again next i j t, annotate_from-again next (suc i) (suc j) ts)

  -- Annotating the annotated tasks of a run at any later step changes nothing: a task that is
  -- carried over keeps its id, its namespace and its number.
  pub annotate_tasks-again :
      (next : ℕ) (ts : List CheckpointTask)
      → annotate_tasks run next (annotate_tasks run step ts) ≡ annotate_tasks run step ts
  unfolding annotate_tasks
  annotate_tasks-again next ts = annotate_from-again next 0 0 ts

  annotate_from-IsAnnotated :
      (i : ℕ) (ts : List CheckpointTask)
      → All IsAnnotated (annotate_from run step i ts)
        × (node_ids_from_tasks (annotate_from run step i ts) ≡ node_ids_from_tasks ts)
  unfolding annotate_from node_ids_from_tasks annotate_task
  annotate_from-IsAnnotated i [] = (tt, refl)
  annotate_from-IsAnnotated i (t ∷ ts) =
      let (rest, same) = annotate_from-IsAnnotated (suc i) ts in
      ((annotate_task-IsAnnotated i t, rest), ground (arith, same))

  -- Every annotated task that runs a node has an id and a number, and annotating changes no task's
  -- node.
  pub annotate_tasks-IsAnnotated :
      (ts : List CheckpointTask)
      → All IsAnnotated (annotate_tasks run step ts)
        × (node_ids_from_tasks (annotate_tasks run step ts) ≡ node_ids_from_tasks ts)
  unfolding annotate_tasks
  annotate_tasks-IsAnnotated ts = annotate_from-IsAnnotated 0 ts
