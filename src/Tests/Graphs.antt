-- ===== src/Tests/Graphs.antt =====
-- A graph START -> a -> b -> END with a router on b, and task lists.
use langgraph_cpp.Prelude.{
  ℕ, zero, suc, String, ◌≡◌, refl, Bool, true, false, Option, none, some, List, [], ◌∷◌, Result, ok,
  err, text_key, is_empty, member_of, ◌↔◌, ◌≢◌, All, targets_of,
}
use langgraph_cpp.Prelude.Map.{lookup, contains, IsSorted}
use langgraph_cpp.State.{State}
use langgraph_cpp.Graph.Task.{
  CheckpointTask, plain_task, start_node, end_node, normalize_next_tasks,
}
use langgraph_cpp.Graph.Task.Normal.{IsNormal, normalize_next_tasks-IsNormal}
use langgraph_cpp.Graph.Types.{StateGraph, NodeSpec, returned, Info, RouteHandler, default_options}
use langgraph_cpp.Graph.Reach.{Adjacency, reachable_from}
use langgraph_cpp.Graph.Reach.Correct.{Reach, reachable_from-Reach}
use langgraph_cpp.Graph.Validate.{validate, adjacency}
use langgraph_cpp.Graph.Validate.Sound.{validate-Reach}
use langgraph_cpp.Graph.Route.{next_tasks_after}
use langgraph_cpp.Graph.Route.Declared.{IsDeclared, next_tasks_after-IsDeclared}
use langgraph_cpp.Tests.Examples.{tree_json, plain_services, t_object, no_members}

abbrev empty_object : State
empty_object = t_object no_members

abbrev quiet_node : NodeSpec
quiet_node = record {
  handler = λ s i. record {
    call = returned (record { update = empty_object; interrupt = none; command = none });
    timed_out = false;
  };
  options = default_options;
}

abbrev to_end : RouteHandler
to_end =
    λ s i. ok (record { node = "a"; arg = none } ∷ record { node = "__end__"; arg = none } ∷ [])

abbrev line_graph : StateGraph
line_graph = record {
  nodes = ("a", quiet_node) ∷ ("b", quiet_node) ∷ [];
  edges = ("__start__", "a" ∷ []) ∷ ("a", "b" ∷ []) ∷ [];
  routers = ("b", to_end) ∷ [];
  router_destinations = ("b", "__end__" ∷ "a" ∷ []) ∷ [];
  command_destinations = [];
  node_defaults = default_options;
  schemas = record { input_schema = none; state_schema = none; output_schema = none };
}

abbrev info : Info
info = record {
  run_id = "r";
  thread_id = "t";
  checkpoint_namespace = "";
  task_id = "";
  step = 1;
  node_id = "b";
  attempt = 1;
  resume_value = none;
}

validate_line : validate line_graph ≡ ok tt
unfolding validate lookup langgraph_cpp.Graph.Builder.has_node_or_end langgraph_cpp.Prelude.any
    reachable_from langgraph_cpp.Prelude.Map.insert
validate_line = refl

validate-Reach_example :
    (adj : Adjacency) × (adjacency line_graph ≡ ok adj)
    × Reach adj start_node end_node
    × ((v : String) → contains v line_graph.nodes ≡ true → Reach adj start_node v)
    × ((v : String) → Reach adj start_node v → v ≢ end_node → Reach adj v end_node)
validate-Reach_example = validate-Reach line_graph validate_line

next_tasks_line : next_tasks_after line_graph "b" empty_object info ≡ ok (plain_task "a" ∷ [])
unfolding next_tasks_after lookup langgraph_cpp.Graph.Builder.has_node_or_end
    langgraph_cpp.Prelude.any
next_tasks_line = refl

next_tasks_after-IsDeclared_example :
    All
      (IsDeclared line_graph (targets_of (lookup "b" line_graph.router_destinations)))
      (plain_task "a" ∷ [])
unfolding lookup
next_tasks_after-IsDeclared_example =
    next_tasks_after-IsDeclared line_graph "b" empty_object info (plain_task "a" ∷ []) refl
      next_tasks_line

abbrev two_steps : Adjacency
two_steps = ("a", "b" ∷ []) ∷ ("b", "c" ∷ "a" ∷ []) ∷ []

reachable_from-Reach_example :
    (r : List String) × (reachable_from two_steps "a" ≡ some r)
    × ((v : String) → (member_of v r ≡ true) ↔ Reach two_steps "a" v)
reachable_from-Reach_example = reachable_from-Reach two_steps "a"

abbrev repeated : List CheckpointTask
repeated =
    plain_task "a" ∷ plain_task "" ∷ plain_task "a" ∷ plain_task "__end__" ∷ plain_task "b" ∷ []

normalize_next_tasks-IsNormal_example : IsNormal (normalize_next_tasks repeated)
normalize_next_tasks-IsNormal_example = normalize_next_tasks-IsNormal repeated
