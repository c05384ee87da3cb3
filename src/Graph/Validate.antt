-- ===== src/Graph/Validate.antt =====
-- `StateGraph::validate` and `compile` of src/langgraph/graph/state_graph.cpp.
pub mod Sorted
pub mod Reverse
pub mod Sound
use langgraph_cpp.Prelude.{
  String, Bool, true, false, Option, none, some, List, [], ◌∷◌, ◌++◌, Result, ok, err, fail,
  fail_if, labelled, ◌>>=◌, ◌>>◌, failed_precondition, ◌==◌, text_key, if◌then◌else◌, is_empty, not,
  ◌&&◌, ◌||◌, member_of, targets_of,
}
use langgraph_cpp.Prelude.Map.{Map, lookup, insert, contains}
use langgraph_cpp.Json.{JsonLib}
use langgraph_cpp.State.{Services}
use langgraph_cpp.Graph.Task.{start_node, end_node}
use langgraph_cpp.Graph.Types.{StateGraph, NodeSpec, RouteHandler}
use langgraph_cpp.Graph.Builder.{has_node_or_end}
use langgraph_cpp.Graph.Reach.{Adjacency, reachable_from}

-- `adjacency.emplace(node, {})` keeps an entry that is there.
pub emplace_empty : String → Adjacency → Adjacency
emplace_empty node adj = if contains node adj then adj else insert node [] adj

-- `adjacency[source].push_back(target)`
pub push_target : String → Adjacency → String → Adjacency
push_target source adj target = insert source (targets_of (lookup source adj) ++ target ∷ []) adj

reverse_edges : String → List String → Adjacency → Adjacency
unfolding push_target
reverse_edges node [] rev = rev
reverse_edges node (t ∷ ts) rev = reverse_edges node ts (push_target t rev node)

-- `reverseAdjacency`, over the entries of the adjacency map.
pub reverse_adjacency : Adjacency → Adjacency → Adjacency
unfolding reverse_edges emplace_empty
reverse_adjacency [] rev = rev
reverse_adjacency ((node, targets) ∷ adj) rev =
    reverse_adjacency adj (reverse_edges node targets (emplace_empty node rev))

-- The set that the search returns; running out of fuel would be read as the empty set.
pub reachable_set : Adjacency → String → List String
reachable_set adj start = targets_of (reachable_from adj start)

-- The loop over the reachable nodes that looks for one from which END cannot be reached.
check_can_reach_end : List String → List String → Result (Unit {0})
check_can_reach_end can [] = ok tt
check_can_reach_end can (node ∷ rest) = do
  fail_if (not (node == end_node) && not (member_of node can)) failed_precondition
      (labelled "reachable node cannot reach END: " node)
  check_can_reach_end can rest

module _ ⦃J : JsonLib⦄ ⦃S : Services⦄ (g : StateGraph) where
  pub node_names : Map String NodeSpec → List String
  node_names [] = []
  node_names ((id, spec) ∷ rest) = id ∷ node_names rest

  -- Where a route without declared destinations may lead.
  open_route_targets : List String
  unfolding node_names
  open_route_targets = node_names g.nodes ++ end_node ∷ []

  initial_adjacency : List String → Adjacency → Adjacency
  unfolding emplace_empty
  initial_adjacency [] adj = adj
  initial_adjacency (id ∷ ids) adj = initial_adjacency ids (emplace_empty id adj)

  check_target : String → String → Result (Unit {0})
  check_target what t = fail_if (not (has_node_or_end g t)) failed_precondition (labelled what t)

  check_targets : String → List String → Result (Unit {0})
  unfolding check_target
  check_targets what [] = ok tt
  check_targets what (t ∷ ts) = check_target what t >> check_targets what ts

  known_source : String → Bool
  known_source source = source == start_node || contains source g.nodes

  check_edges : String → List String → Result (Unit {0})
  unfolding check_targets known_source
  check_edges source targets = do
    fail_if (not (known_source source)) failed_precondition
        (labelled "edge source is unknown: " source)
    fail_if (contains source g.routers) failed_precondition
        (labelled "node cannot have both normal and conditional edges: " source)
    fail_if (contains source g.command_destinations) failed_precondition
        (labelled "node cannot have both normal and command routing edges: " source)
    check_targets "edge target is unknown: " targets

  add_edges : Map String (List String) → Adjacency → Result Adjacency
  unfolding check_edges
  add_edges [] adj = ok adj
  add_edges ((source, targets) ∷ rest) adj =
      check_edges source targets >> add_edges rest (insert source targets adj)

  -- `adjacency[source].push_back(target)` for each declared destination, once it is known.
  add_destinations : String → String → List String → Adjacency → Result Adjacency
  unfolding push_target check_target
  add_destinations what source [] adj = ok adj
  add_destinations what source (t ∷ ts) adj =
      check_target what t >> add_destinations what source ts (push_target source adj t)

  -- No declared destination means that the route may lead anywhere.
  add_route : String → String → List String → Adjacency → Result Adjacency
  unfolding add_destinations open_route_targets
  add_route what source [] adj = ok (insert source open_route_targets adj)
  add_route what source (t ∷ ts) adj = add_destinations what source (t ∷ ts) adj

  check_router : String → Result (Unit {0})
  unfolding known_source
  check_router source = do
    fail_if (not (known_source source)) failed_precondition
        (labelled "router source is unknown: " source)
    fail_if (contains source g.command_destinations) failed_precondition
        (labelled "node cannot have both conditional and command routing edges: " source)

  add_routers : Map String RouteHandler → Adjacency → Result Adjacency
  unfolding add_route check_router
  add_routers [] adj = ok adj
  add_routers ((source, router) ∷ rest) adj =
      check_router source
      >> (add_route "router target is unknown: " source
            (targets_of (lookup source g.router_destinations)) adj
          >>= add_routers rest)

  check_command : String → Result (Unit {0})
  check_command source =
      fail_if (not (contains source g.nodes)) failed_precondition
        (labelled "command source is unknown: " source)

  add_command_routes : Map String (List String) → Adjacency → Result Adjacency
  unfolding add_route check_command
  add_command_routes [] adj = ok adj
  add_command_routes ((source, destinations) ∷ rest) adj =
      check_command source
      >> (add_route "command target is unknown: " source destinations adj
          >>= add_command_routes rest)

  has_route : String → Bool
  has_route node =
      contains node g.edges || contains node g.routers || contains node g.command_destinations

  -- A node with no way out leads to END.
  add_default_ends : List String → Adjacency → Adjacency
  unfolding has_route push_target
  add_default_ends [] adj = adj
  add_default_ends (id ∷ ids) adj =
      add_default_ends ids (if has_route id then adj else push_target id adj end_node)

  pub adjacency : Result Adjacency
  unfolding initial_adjacency node_names add_edges add_routers add_command_routes add_default_ends
      emplace_empty
  adjacency = do
    let blank =
        initial_adjacency (node_names g.nodes)
          (emplace_empty end_node (emplace_empty start_node []))
    with_edges ← add_edges g.edges blank
    with_routers ← add_routers g.routers with_edges
    with_commands ← add_command_routes g.command_destinations with_routers
    ok (add_default_ends (node_names g.nodes) with_commands)

  check_nodes_reachable : List String → List String → Result (Unit {0})
  check_nodes_reachable reachable [] = ok tt
  check_nodes_reachable reachable (id ∷ ids) = do
    fail_if (not (member_of id reachable)) failed_precondition
        (labelled "node is not reachable from START: " id)
    check_nodes_reachable reachable ids

  -- The checks on the finished adjacency map.
  pub check_reachability : Adjacency → Result (Unit {0})
  unfolding check_nodes_reachable check_can_reach_end reverse_adjacency reachable_set node_names
  check_reachability adj = do
    let reachable = reachable_set adj start_node
    fail_if (not (member_of end_node reachable)) failed_precondition
        "END is not reachable from START"
    check_nodes_reachable reachable (node_names g.nodes)
    check_can_reach_end (reachable_set (reverse_adjacency adj []) end_node) reachable

  unfoldable pub validate : Result (Unit {0})
  unfolding adjacency check_reachability
  validate = do
    fail_if
        (is_empty (targets_of (lookup start_node g.edges)) && not (contains start_node g.routers))
        failed_precondition "graph must have an edge from START"
    adj ← adjacency
    check_reachability adj

  -- `compile`: the graph as it is, once it is valid.
  pub compile : Result StateGraph
  unfolding validate
  compile = validate >> ok g
