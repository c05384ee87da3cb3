-- ===== src/Tests/Runs.antt =====
-- A node that fails once, and then answers.
use langgraph_cpp.Prelude.{
  ◌≡◌, refl, true, false, none, List, [], ◌∷◌, ok, Status, unavailable, text_key, nat_key, arith,
  All, ◌==◌, if◌then◌else◌,
}
use langgraph_cpp.Prelude.Map.{lookup}
use langgraph_cpp.State.{State}
use langgraph_cpp.Graph.Task.{CheckpointTask, plain_task}
use langgraph_cpp.Graph.Types.{StateGraph, NodeSpec, NodeOutput, returned, failed, default_options}
use langgraph_cpp.Run.Execute.{
  NodeExecution, RunContext, CancelChecks, done, handle_failure, execute_task,
}
use langgraph_cpp.Run.Execute.Attempts.{execute_task-retries, execute_task-exhausts}
use langgraph_cpp.Run.Dispatch.{Dispatch, dispatch_executions}
use langgraph_cpp.Run.Dispatch.Order.{execute_all, dispatch_executions-execute_all}
use langgraph_cpp.Run.Tasks.{annotate_tasks}
use langgraph_cpp.Run.Tasks.Numbers.{IsAnnotated, annotate_tasks-IsAnnotated}
use langgraph_cpp.Graph.Task.{node_ids_from_tasks}
use langgraph_cpp.Tests.Examples.{tree_json, plain_services, t_object, no_members}

abbrev pub nothing : State
nothing = t_object no_members

abbrev pub answer : NodeOutput
answer = record { update = nothing; interrupt = none; command = none }

abbrev pub busy : Status
busy = record { code = unavailable; message = "busy" }

abbrev pub fails_once : NodeSpec
fails_once = record {
  handler = λ s i. record {
    call = if i.attempt == 1 then failed busy [] else returned answer;
    timed_out = false;
  };
  options = record {
    max_attempts = 2;
    has_delay = true;
    has_timeout = false;
    error_handler = none;
  };
}

abbrev pub always_busy : NodeSpec
always_busy = record {
  handler = λ s i. record { call = failed busy []; timed_out = false };
  options = default_options;
}

abbrev graph : StateGraph
graph = record {
  nodes = ("a", fails_once) ∷ ("b", always_busy) ∷ [];
  edges = [];
  routers = [];
  router_destinations = [];
  command_destinations = [];
  node_defaults = default_options;
  schemas = record { input_schema = none; state_schema = none; output_schema = none };
}

abbrev pub run : RunContext
run = record { run_id = "r"; thread_id = "t"; checkpoint_namespace = ""; resume_values = [] }

abbrev pub never_cancelled : CancelChecks
never_cancelled = record { before_attempt = λ i n. ok tt; during_delay = λ i n. ok tt }

execute_task-retries_example :
    execute_task graph run never_cancelled 0 (plain_task "a") nothing 1
    ≡ done (plain_task "a") answer
unfolding lookup langgraph_cpp.Run.Execute.output_of_attempt
execute_task-retries_example =
    execute_task-retries graph run never_cancelled fails_once nothing 0 (plain_task "a") 1 1
      (λ n. busy) answer refl (omega arith) ((refl, refl, refl), tt) refl refl

execute_task-exhausts_example :
    execute_task graph run never_cancelled 0 (plain_task "b") nothing 1
    ≡ handle_failure graph run never_cancelled always_busy nothing 0 (plain_task "b") 1 busy
unfolding lookup langgraph_cpp.Run.Execute.output_of_attempt
execute_task-exhausts_example =
    execute_task-exhausts graph run never_cancelled always_busy nothing 0 (plain_task "b") 1 0
      (λ n. busy) busy refl refl tt refl refl

abbrev pub two_at_once : Dispatch
two_at_once = record {
  max_concurrency = 2;
  own_executor = false;
  hardware = 8;
  submit = λ i. ok tt;
}

abbrev three_tasks : List CheckpointTask
three_tasks = plain_task "a" ∷ plain_task "b" ∷ plain_task "a" ∷ []

dispatch_executions-execute_all_example :
    dispatch_executions graph run never_cancelled two_at_once nothing 1 three_tasks
    ≡ execute_all graph run never_cancelled two_at_once nothing 1 0 three_tasks
dispatch_executions-execute_all_example =
    dispatch_executions-execute_all graph run never_cancelled two_at_once nothing 1 three_tasks
      (λ i. refl)

annotate_tasks-IsAnnotated_example :
    All (IsAnnotated run 1) (annotate_tasks run 1 three_tasks)
    × (node_ids_from_tasks (annotate_tasks run 1 three_tasks) ≡ node_ids_from_tasks three_tasks)
annotate_tasks-IsAnnotated_example = annotate_tasks-IsAnnotated run 1 three_tasks
