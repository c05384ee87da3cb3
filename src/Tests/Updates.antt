-- ===== src/Tests/Updates.antt =====
-- An update of a thread that holds one checkpoint.
use langgraph_cpp.Prelude.{◌≡◌, refl, Bool, true, none, Result, ok, err}
use langgraph_cpp.Prelude.{find_if}
use langgraph_cpp.Prelude.Map.{lookup, erase, insert}
use langgraph_cpp.Graph.Route.{next_tasks_from_checkpoint}
use langgraph_cpp.State.{state_from_json_value, is_overwrite_json}
use langgraph_cpp.State.Reducer.{apply_state_update, apply_field}
use langgraph_cpp.Run.Writes.{validate_state_schema}
use langgraph_cpp.Run.Session.{without_run_error_metadata}
use langgraph_cpp.Checkpoint.Types.{latest, query_at, validate_checkpoint_query}
use langgraph_cpp.Checkpoint.Saver.{
  InMemorySaver, new_saver, put, get_tuple, find_checkpoint, tuple_if, tuple_of,
}
use langgraph_cpp.Checkpoint.Saver.Lookup.{put-IsValid, new_saver-IsValid}
use langgraph_cpp.Run.Compiled.{
  StateSnapshot, CallOptions, get_state_at, snapshot_from_checkpoint, require_run_checkpointer,
}
use langgraph_cpp.Run.Compiled.Update.{
  StateUpdateOptions, update_state, update_plan, update_base, planned_checkpoint, update_tasks,
}
use langgraph_cpp.Run.Compiled.Update.Read.{memory_reader, get_state_at-update_state}
use langgraph_cpp.Tests.Examples.{
  Tree, tree_json, plain_services, t_unsigned, t_object, no_members, a_member,
}
use langgraph_cpp.Tests.Checkpoints.{saver, stored, checkpoint}
use langgraph_cpp.Tests.Loops.{graph, session}

abbrev call : CallOptions
call = record {
  run_id = "r2";
  thread_id = "";
  checkpoint_namespace = "";
  options = session.options;
}

abbrev latest_one : StateUpdateOptions
latest_one = record { checkpoint_id = ""; as_node = none }

-- Whether two values are equal is not asked here.
abbrev never : Tree → Tree → Bool
never s t = true

abbrev updated : InMemorySaver × Result StateSnapshot
updated =
    update_state graph session.around (memory_reader never) "t"
      (t_object (a_member "x" (t_unsigned 7) no_members)) call latest_one "update-run-1" "update-1"
      saver

abbrev snapshot_or : Result StateSnapshot → StateSnapshot
snapshot_or (ok s) = s
snapshot_or (err e) = snapshot_from_checkpoint checkpoint

is_updated : updated ≡ (updated.0, ok (snapshot_or updated.1))
unfolding get_tuple validate_checkpoint_query find_checkpoint find_if tuple_if tuple_of latest
    query_at lookup update_state update_plan update_base require_run_checkpointer
    without_run_error_metadata erase state_from_json_value apply_state_update apply_field
    is_overwrite_json insert planned_checkpoint snapshot_from_checkpoint put update_tasks
    validate_state_schema next_tasks_from_checkpoint
is_updated = refl

get_state_at-update_state_example :
    get_state_at graph session.around (memory_reader never) "t" "update-1" call updated.0
    ≡ ok (snapshot_or updated.1)
unfolding get_tuple validate_checkpoint_query find_checkpoint find_if tuple_if tuple_of latest
    query_at lookup update_state update_plan update_base require_run_checkpointer
    without_run_error_metadata erase state_from_json_value apply_state_update apply_field
    is_overwrite_json insert planned_checkpoint snapshot_from_checkpoint put update_tasks
    validate_state_schema next_tasks_from_checkpoint
get_state_at-update_state_example =
    get_state_at-update_state graph session.around never "t"
      (t_object (a_member "x" (t_unsigned 7) no_members)) call latest_one "update-run-1" "update-1"
      saver updated.0 (snapshot_or updated.1) call refl
      (put-IsValid checkpoint new_saver saver new_saver-IsValid stored) is_updated refl refl refl
