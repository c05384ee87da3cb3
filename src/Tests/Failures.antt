-- ===== src/Tests/Failures.antt =====
-- Super-steps in which a task fails, an update cannot be merged, or writes are carried over.
use langgraph_cpp.Prelude.{
  subst, ap, ◌⊎◌, ◌++◌, Bool, not, keep, ℕ, invalid_argument, nat_key, ◌==◌, suc, ◌≤◌, ◌≡◌, refl,
  true, false, Option, none, some, List, [], ◌∷◌, Result, ok, String, to_string, arith, text_key,
  Status, err,
}
use langgraph_cpp.Prelude.Map.{lookup, insert}
use langgraph_cpp.State.{State, state_from_json_value, update_from_json_value}
use langgraph_cpp.State.Reducer.{no_reducers, apply_state_update}
use langgraph_cpp.Graph.Task.{
  CheckpointTask, plain_task, append_tasks, normalize_next_tasks, is_terminal_next_tasks, end_node,
}
use langgraph_cpp.Checkpoint.Types.{Checkpoint, CheckpointWrite}
use langgraph_cpp.Run.Flow.{Flow, stops, ◌>>=◌, modify, read, attempt, pure, when, leave}
use langgraph_cpp.Run.Session.{
  GraphRun, Members, RunResult, CheckpointSaver, RunStatus, new_checkpoint, new_checkpoint_id, sync,
  fail_run, store_failure, put_checkpoint, store_checkpoint, save, save_writes, return_result,
  should_store, with_run_error_metadata, run_status_from_status,
}
use langgraph_cpp.Run.Step.{super_step, fail_step, merge_all, commit_writes}
use langgraph_cpp.Run.Execute.{done, stopped}
use langgraph_cpp.Run.Writes.{apply_write, write_order_less}
use langgraph_cpp.Run.Checks.{Checked, check_executions}
use langgraph_cpp.Run.Step.Merged.{
  Merged, none_left, one_more, commit_writes-split, merge_all-stops,
}
use langgraph_cpp.Run.Tasks.{annotate_tasks}
use langgraph_cpp.Tests.Examples.{
  tree_json, plain_services, t_text, t_unsigned, t_null, t_object, no_members, a_member,
}
use langgraph_cpp.Tests.Runs.{nothing, run as context, answer, busy}
use langgraph_cpp.Tests.Loops.{pile_laws, piling, two_tasks, result_at}

abbrev tried : Checked
tried = check_executions false (done (plain_task "a") answer ∷ stopped (plain_task "c") busy ∷ [])

abbrev kept_write : CheckpointWrite
kept_write = record {
  task_id = "";
  task_path = "";
  node_id = "a";
  checkpoint_namespace = "";
  update = nothing;
  order = none;
  has_next_tasks = false;
  next_tasks = [];
  metadata = t_object (a_member "source" (t_text "node") no_members);
}

abbrev ended : Members (List Checkpoint) × Flow (Result RunResult) (Unit {0})
ended =
    fail_step piling 1 (plain_task "a" ∷ plain_task "c" ∷ []) [] tried (plain_task "c", busy)
      two_tasks

abbrev result_in : Members (List Checkpoint) × Flow (Result RunResult) (Unit {0}) → RunResult
result_in p = result_at (some p)

abbrev write : ℕ → State → CheckpointWrite
write n u = record {
  task_id = "";
  task_path = "";
  node_id = "a";
  checkpoint_namespace = "";
  update = u;
  order = some n;
  has_next_tasks = false;
  next_tasks = [];
  metadata = t_object no_members;
}

abbrev sets : String → State
sets k = t_object (a_member k (t_unsigned 1) no_members)

abbrev first_carried : CheckpointWrite → Bool
first_carried w = elim w.order [ none ↦ false | some n ↦ n == 1 ]

commit_writes-split_example :
    commit_writes piling 1 [] [] tried
      (keep first_carried (write 0 (sets "y") ∷ write 1 (sets "x") ∷ [])
        ++ keep (λ w. not (first_carried w)) (write 0 (sets "y") ∷ write 1 (sets "x") ∷ []))
      two_tasks
    ≡ commit_writes piling 1 [] [] tried (write 0 (sets "y") ∷ write 1 (sets "x") ∷ []) two_tasks
unfolding write_order_less
commit_writes-split_example =
    commit_writes-split piling 1 [] [] tried first_carried
      (write 0 (sets "y") ∷ write 1 (sets "x") ∷ []) two_tasks ((refl, tt), (tt, tt))

abbrev not_an_update : Status
not_an_update = record { code = invalid_argument; message = "state update must be a JSON object" }

abbrev merged_until : Members (List Checkpoint) × Flow (Result RunResult) (Unit {0})
merged_until =
    merge_all piling 1 (plain_task "a" ∷ []) []
      (write 0 (sets "x") ∷ write 1 t_null ∷ write 2 (sets "z") ∷ []) two_tasks

merging_ends_with_a_result : merged_until ≡ (merged_until.0, stops (ok (result_in merged_until)))
unfolding merge_all ◌>>=◌ langgraph_cpp.Run.Step.merge_write read modify attempt apply_write
    update_from_json_value apply_state_update langgraph_cpp.State.Reducer.apply_field
    langgraph_cpp.State.is_overwrite_json lookup pure fail_run store_failure with_run_error_metadata
    put_checkpoint langgraph_cpp.Graph.Task.node_ids_from_tasks normalize_next_tasks to_string
    insert langgraph_cpp.Prelude.status_text leave when langgraph_cpp.Run.Session.contains_text
    langgraph_cpp.Run.Session.durability_mode_name langgraph_cpp.Run.Session.error_block
    langgraph_cpp.Run.Session.failure_tasks new_checkpoint new_checkpoint_id
    langgraph_cpp.Run.Session.result_of return_result run_status_from_status save save_writes
    should_store store_checkpoint langgraph_cpp.Run.Writes.validate_state_schema
    langgraph_cpp.State.Reducer.apply_fields state_from_json_value
merging_ends_with_a_result = refl

first_merges : Merged piling 1 (write 0 (sets "x") ∷ []) nothing (sets "x")
unfolding update_from_json_value apply_state_update langgraph_cpp.State.Reducer.apply_field
    langgraph_cpp.State.is_overwrite_json lookup langgraph_cpp.Prelude.Map.insert
    state_from_json_value langgraph_cpp.Run.Writes.validate_state_schema
first_merges =
    one_more {w = write 0 (sets "x")} {ws = []} {state = nothing} {after = sets "x"} refl refl refl
      none_left

merge_all-stops_example :
    (d : Checkpoint) × pile_laws.Has merged_until.0.stored d
    × (with_run_error_metadata (sets "x") not_an_update "a" 1 ≡ ok d.state)
    × (d.pending_writes ≡ [])
    × (d.next_tasks ≡ annotate_tasks context 1 (normalize_next_tasks (plain_task "a" ∷ [])))
    × ((result_in merged_until).state ≡ d.state)
    × ((result_in merged_until).status ≡ run_status_from_status not_an_update)
unfolding is_terminal_next_tasks update_from_json_value
merge_all-stops_example =
    merge_all-stops piling 1 pile_laws refl (plain_task "a" ∷ []) [] (write 0 (sets "x") ∷ [])
      (write 1 t_null) (write 2 (sets "z") ∷ []) two_tasks merged_until.0 (sets "x") not_an_update
      (result_in merged_until) refl first_merges refl merging_ends_with_a_result
