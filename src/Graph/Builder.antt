-- ===== src/Graph/Builder.antt =====
-- The builder operations of src/langgraph/graph/state_graph.cpp. A builder method that fails
-- leaves the graph as it was, so each is a function from a graph to a result.
use Prim.Native.Char.{code}
use langgraph_cpp.Prelude.{
  ℕ, String, Bool, true, false, Option, none, some, List, [], ◌∷◌, ◌++◌, Result, ok, fail_if,
  or_fail, labelled, ◌>>=◌, ◌>>◌, invalid_argument, already_exists, not_found, ◌==◌, nat_key,
  text_key, if◌then◌else◌, is_empty, ◌||◌, member_of, add_to_set, targets_of,
}
use langgraph_cpp.Prelude.Map.{lookup, insert, contains}
use langgraph_cpp.Json.{JsonLib}
use langgraph_cpp.State.{Services}
use langgraph_cpp.Graph.Task.{start_node, end_node}
use langgraph_cpp.Graph.Types.{
  NodeHandler, NodeOptions, RouteHandler, StateGraph, StateSchemaOptions,
}

-- `id.find(c) != npos`
mentions : ℕ → String → Bool
mentions c String.[] = false
mentions c (String.◌∷◌ d s) = if code d == c then true else mentions c s

-- state_graph_common.hh
pub validate_user_node_id : String → Result (Unit {0})
unfolding mentions
validate_user_node_id id = do
  fail_if (id == "") invalid_argument "node id cannot be empty"
  fail_if (id == start_node || id == end_node) invalid_argument "node id is reserved"
  fail_if (mentions b'|' id) invalid_argument "node id contains reserved namespace separator"
  fail_if (mentions b':' id) invalid_argument "node id contains reserved namespace task separator"

pub validate_target_node_id : String → Result (Unit {0})
validate_target_node_id id = do
  fail_if (id == "") invalid_argument "target node id cannot be empty"
  fail_if (id == start_node) invalid_argument "edge target cannot be START"

-- The loop over the declared destinations of a router or a command route.
destination_set : List String → List String → Result (List String)
unfolding add_to_set
destination_set [] set = ok set
destination_set (d ∷ ds) set = validate_target_node_id d >> destination_set ds (add_to_set d set)

validate_source : String → Result (Unit {0})
validate_source source = if source == start_node then ok tt else validate_user_node_id source

module _ ⦃J : JsonLib⦄ ⦃S : Services⦄ where
  unfoldable pub has_node_or_end : StateGraph → String → Bool
  has_node_or_end g id = id == end_node || contains id g.nodes

  pub set_node_defaults : NodeOptions → StateGraph → StateGraph
  set_node_defaults options g = record g { node_defaults = options }

  pub set_schemas : StateSchemaOptions → StateGraph → StateGraph
  set_schemas schemas g = record g { schemas = schemas }

  -- `addNode` with options; the handler is none when it is empty.
  pub add_node_with : String → Option NodeHandler → NodeOptions → StateGraph → Result StateGraph
  add_node_with id handler options g = do
    validate_user_node_id id
    h ← or_fail handler invalid_argument "node handler cannot be empty"
    fail_if (contains id g.nodes) already_exists (labelled "node already exists: " id)
    ok (record g { nodes = insert id (record { handler = h; options = options }) g.nodes })

  pub add_node : String → Option NodeHandler → StateGraph → Result StateGraph
  add_node id handler g = add_node_with id handler g.node_defaults g

  pub set_node_options : String → NodeOptions → StateGraph → Result StateGraph
  set_node_options id options g = do
    validate_user_node_id id
    spec ← or_fail (lookup id g.nodes) not_found (labelled "node not found: " id)
    ok (record g { nodes = insert id (record spec { options = options }) g.nodes })

  pub add_edge : String → String → StateGraph → Result StateGraph
  unfolding validate_source
  add_edge source target g = do
    fail_if (source == "") invalid_argument "edge source cannot be empty"
    fail_if (source == end_node) invalid_argument "edge source cannot be END"
    validate_source source
    validate_target_node_id target
    let targets = targets_of (lookup source g.edges)
    fail_if (member_of target targets) already_exists "edge already exists"
    ok (record g { edges = insert source (targets ++ target ∷ []) g.edges })

  add_edges_from : List String → String → StateGraph → Result StateGraph
  add_edges_from [] target g = ok g
  add_edges_from (s ∷ ss) target g = add_edge s target g >>= add_edges_from ss target

  -- `addEdge` from several sources works on a copy of the graph.
  pub add_edges : List String → String → StateGraph → Result StateGraph
  unfolding add_edges_from
  add_edges sources target g = do
    fail_if (is_empty sources) invalid_argument "edge sources cannot be empty"
    add_edges_from sources target g

  -- The edge from the node before, if there is one.
  link : Option String → String → StateGraph → Result StateGraph
  link none id g = ok g
  link (some previous) id g = add_edge previous id g

  add_sequence_from :
      Option String → List (String × Option NodeHandler) → StateGraph → Result StateGraph
  unfolding link
  add_sequence_from previous [] g = ok g
  add_sequence_from previous ((id, handler) ∷ rest) g =
      add_node id handler g >>= λ g'. link previous id g' >>= add_sequence_from (some id) rest

  pub add_sequence : List (String × Option NodeHandler) → StateGraph → Result StateGraph
  unfolding add_sequence_from
  add_sequence nodes g = do
    fail_if (is_empty nodes) invalid_argument "sequence requires at least one node"
    add_sequence_from none nodes g

  pub set_entry_point : String → StateGraph → Result StateGraph
  set_entry_point target g = add_edge start_node target g

  pub set_finish_point : String → StateGraph → Result StateGraph
  set_finish_point source g = add_edge source end_node g

  -- `addConditionalEdges` and `registerRoute`; the router is none when it is empty.
  pub add_conditional_edges :
      String → Option RouteHandler → List String → StateGraph → Result StateGraph
  unfolding validate_source destination_set
  add_conditional_edges source router destinations g = do
    r ← or_fail router invalid_argument "router handler cannot be empty"
    fail_if (source == "") invalid_argument "router source cannot be empty"
    validate_source source
    fail_if (contains source g.routers) already_exists
        (labelled "conditional edges already exist: " source)
    set ← destination_set destinations []
    ok (record g {
      routers = insert source r g.routers;
      router_destinations = insert source set g.router_destinations;
    })

  pub add_command_route : String → List String → StateGraph → Result StateGraph
  unfolding destination_set
  add_command_route source destinations g = do
    validate_user_node_id source
    fail_if (contains source g.command_destinations) already_exists
        (labelled "command destinations already exist: " source)
    set ← destination_set destinations []
    ok (record g { command_destinations = insert source set g.command_destinations })
