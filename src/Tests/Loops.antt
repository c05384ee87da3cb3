-- ===== src/Tests/Loops.antt =====
-- A run of two nodes that end, and one of a node that leads to itself for ever.
use langgraph_cpp.Prelude.{
  subst, ap, ◌⊎◌, ◌++◌, Bool, not, keep, ℕ, invalid_argument, nat_key, ◌==◌, suc, map, ◌≤◌, ◌≡◌,
  refl, true, false, Option, none, some, List, [], ◌∷◌, Result, ok, String, to_string, any, arith,
  text_key, Status, err,
}
use langgraph_cpp.Prelude.Map.{lookup, insert}
use langgraph_cpp.State.{state_from_json_value}
use langgraph_cpp.State.Reducer.{no_reducers}
use langgraph_cpp.Graph.Task.{
  CheckpointTask, plain_task, append_tasks, normalize_next_tasks, is_terminal_next_tasks, end_node,
}
use langgraph_cpp.Graph.Types.{StateGraph, NodeSpec, returned, default_options}
use langgraph_cpp.Checkpoint.Types.{Checkpoint}
use langgraph_cpp.Checkpoint.Saver.{InMemorySaver, new_saver}
use langgraph_cpp.Run.Budget.{consume_step}
use langgraph_cpp.Run.Flow.{Flow, stops, ◌>>=◌, modify, read, attempt, pure, when, leave}
use langgraph_cpp.Run.Session.{
  GraphRun, Members, RunResult, CheckpointSaver, RunStatus, new_checkpoint, new_checkpoint_id, sync,
  fail_run, store_failure, put_checkpoint, store_checkpoint, save, save_writes, return_result,
  should_store, with_run_error_metadata, run_status_from_status,
}
use langgraph_cpp.Run.Session.Stored.{HasState}
use langgraph_cpp.Run.Session.Stored.{SaverLaws}
use langgraph_cpp.Run.Session.Memory.{memory_saver}
use mathlib.Core.List.{Memᴰ}
use langgraph_cpp.Run.Session.Repeated.{fail_run-Refused}
use langgraph_cpp.Run.Step.{super_step}
use langgraph_cpp.Run.Writes.{write_from_execution, apply_write, write_order_less}
use langgraph_cpp.Run.Checks.{
  Checked, check_executions, check_execution, check_output, fail_parent, fail_later_parents,
  interrupts_in,
}
use langgraph_cpp.Run.Loop.{run, run_loop, concluded}
use langgraph_cpp.Run.Loop.Ends.{run-ends}
use langgraph_cpp.Run.Loop.Stored.{run-Stored, IsIdle}
use langgraph_cpp.Tests.Examples.{
  tree_json, plain_services, t_unsigned, t_object, no_members, a_member,
}
use langgraph_cpp.Tests.Checkpoints.{saver}
use langgraph_cpp.Tests.Runs.{
  nothing, never_cancelled, two_at_once, run as context, always_busy, busy,
}

abbrev writes_to : String → NodeSpec
writes_to key = record {
  handler = λ s i. record {
    call = returned (record {
      update = t_object (a_member key (t_unsigned i.step) no_members);
      interrupt = none;
      command = none;
    });
    timed_out = false;
  };
  options = default_options;
}

abbrev pub graph : StateGraph
graph = record {
  nodes =
      ("a", writes_to "x") ∷ ("b", writes_to "y") ∷ ("c", always_busy) ∷ ("d", writes_to "z") ∷ [];
  edges = ("a", end_node ∷ []) ∷ ("b", end_node ∷ []) ∷ ("c", end_node ∷ []) ∷ ("d", "d" ∷ []) ∷ [];
  routers = [];
  router_destinations = [];
  command_destinations = [];
  node_defaults = default_options;
  schemas = record { input_schema = none; state_schema = none; output_schema = none };
}

-- A checkpointer that takes everything and puts the latest checkpoint first.
abbrev pub pile : CheckpointSaver (List Checkpoint)
pile = record { put = λ c s. (c ∷ s, ok tt); put_writes = λ ws s. (s, ok tt) }

pub pile_laws : SaverLaws pile
pile_laws = record {
  Has = λ s c. Memᴰ c s;
  put-Has = λ c s t e. subst (Memᴰ c) (ap (λ p. p.0) e) (Memᴰ.head refl);
  put_writes-Has = λ c ws s h. h;
}

abbrev pub session_with : {σ : Type 0} → ℕ → CheckpointSaver σ → GraphRun σ
session_with steps w = record {
  graph = graph;
  context = context;
  options = record {
    durability = sync;
    reducers = no_reducers;
    limits = record { max_steps = some steps; max_retries = none; max_memory_bytes = none };
    command = none;
    has_checkpointer = true;
  };
  around = record {
    emit = λ e. ok tt;
    cancelled_at = λ n. ok tt;
    expired_at = λ n. false;
    checks_at = λ n. never_cancelled;
    dispatch_at = λ n. two_at_once;
    clock = λ id. 5;
    saver = w;
  };
  write_initial_checkpoint = true;
  allow_parent_command = false;
}

abbrev pub session : GraphRun InMemorySaver
session = session_with 2 memory_saver

abbrev pub piling : GraphRun (List Checkpoint)
piling = session_with 2 pile

abbrev start_from : {σ : Type 0} → List CheckpointTask → σ → Members σ
start_from tasks w = record {
  state = nothing;
  step = 0;
  status = RunStatus.completed;
  parent_command = none;
  next_tasks = tasks;
  pending_writes = [];
  parent_checkpoint_id = none;
  resume_values = [];
  stored = w;
}

abbrev for_ever : Members InMemorySaver
for_ever = start_from (plain_task "d" ∷ []) new_saver

run-ends_example :
    (res : Members InMemorySaver × Flow (Result RunResult) (Unit {0})) × ((fuel : ℕ)
      → suc 2 ≤ fuel
      → run session fuel for_ever ≡ some res)
run-ends_example = run-ends session 2 for_ever (omega arith)

abbrev pub two_tasks : Members (List Checkpoint)
two_tasks = start_from (plain_task "a" ∷ plain_task "b" ∷ []) []

abbrev Outcome : Type 0
Outcome = Option (Members (List Checkpoint) × Flow (Result RunResult) (Unit {0}))

abbrev members_at : Outcome → Members (List Checkpoint)
members_at none = two_tasks
members_at (some (m, f)) = m

abbrev pub no_result : RunResult
no_result = record {
  state = nothing;
  run_id = "";
  thread_id = "";
  checkpoint_namespace = "";
  status = RunStatus.failed;
  step = 0;
  parent_command = none;
}

abbrev pub result_at : Outcome → RunResult
result_at (some (m, stops (ok v))) = v
result_at _ = no_result

-- No step is granted.
abbrev stopped_session : GraphRun (List Checkpoint)
stopped_session = session_with 0 pile

abbrev outcome : Outcome
outcome = run stopped_session 1 two_tasks

returns_a_result : outcome ≡ some (members_at outcome, stops (ok (result_at outcome)))
unfolding run langgraph_cpp.Run.Loop.prepare ◌>>=◌ modify when langgraph_cpp.Run.Loop.start_new read
    attempt langgraph_cpp.Run.Writes.validate_state_schema pure lookup
    langgraph_cpp.Run.Loop.put_initial put_checkpoint should_store store_checkpoint save
    langgraph_cpp.Graph.Builder.has_node_or_end langgraph_cpp.Graph.Task.append_plain_task
    langgraph_cpp.Graph.Task.append_send_task langgraph_cpp.Graph.Task.append_task
    langgraph_cpp.Graph.Task.node_ids_from_tasks normalize_next_tasks to_string any insert
    langgraph_cpp.Prelude.status_text langgraph_cpp.Run.Checks.checked_again
    langgraph_cpp.Run.Checks.failed_parent langgraph_cpp.Run.Checks.failures_in
    langgraph_cpp.Run.Checks.find_parent langgraph_cpp.Run.Checks.later_parents leave
    langgraph_cpp.Run.Session.contains_text langgraph_cpp.Run.Session.durability_mode_name
    langgraph_cpp.Run.Session.error_block langgraph_cpp.Run.Session.failure_tasks new_checkpoint
    new_checkpoint_id langgraph_cpp.Run.Session.result_of return_result run_status_from_status
    save_writes with_run_error_metadata langgraph_cpp.Run.Writes.command_tasks_after
    langgraph_cpp.Run.Writes.write_with langgraph_cpp.Run.Loop.apply_command run_loop
    is_terminal_next_tasks super_step consume_step fail_run store_failure state_from_json_value
returns_a_result = refl

run-Stored_example :
    HasState stopped_session pile_laws refl (members_at outcome) (result_at outcome).state
    ⊎ IsIdle stopped_session pile_laws refl two_tasks
run-Stored_example =
    run-Stored stopped_session pile_laws refl 1 two_tasks (members_at outcome) (result_at outcome)
      returns_a_result

-- The checkpoint of step 1 is there, and a task of step 1 fails.
fail_run-Refused_example :
    (e : Status) × ((fail_run session {A = Unit {0}} busy 1 "a" [] []
        (start_from (plain_task "a" ∷ []) saver)).1
      ≡ stops (err e))
unfolding new_checkpoint_id to_string lookup any
fail_run-Refused_example =
    fail_run-Refused session refl refl busy 1 "a" [] [] (start_from (plain_task "a" ∷ []) saver)
      refl
