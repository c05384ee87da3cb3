-- ===== src/Graph/Validate/Sorted.antt =====
-- The keys of the adjacency map that `validate` builds.
use langgraph_cpp.Prelude.{
  String, ◌≡◌, List, [], ◌∷◌, ok, OnOk, OnOk-bind, OnOk-then, OnOk-eq, text_key, Bool-cases, inl,
  inr, targets_of,
}
use langgraph_cpp.Prelude.Map.{Map, lookup, insert, contains, IsSorted, insert-IsSorted}
use langgraph_cpp.Json.{JsonLib}
use langgraph_cpp.State.{Services}
use langgraph_cpp.Graph.Task.{start_node, end_node}
use langgraph_cpp.Graph.Types.{StateGraph, RouteHandler}
use langgraph_cpp.Graph.Reach.{Adjacency}
use langgraph_cpp.Graph.Validate.{
  emplace_empty, push_target, initial_adjacency, add_edges, check_edges, check_target, check_router,
  check_command, add_destinations, add_route, add_routers, add_command_routes, add_default_ends,
  adjacency, node_names, has_route,
}

abbrev HasOrder : Adjacency → Type 0
HasOrder = IsSorted

emplace_empty-IsSorted :
    (node : String) (adj : Adjacency) → IsSorted adj → IsSorted (emplace_empty node adj)
unfolding emplace_empty
emplace_empty-IsSorted node adj s = elim (Bool-cases (contains node adj)) [
  | inl there ↦ rw there s
  | inr new ↦ rw new (insert-IsSorted node [] adj s)
]

push_target-IsSorted :
    (source : String) (adj : Adjacency) (t : String)
    → IsSorted adj
    → IsSorted (push_target source adj t)
unfolding push_target
push_target-IsSorted source adj t s = insert-IsSorted source _ adj s

module _ ⦃J : JsonLib⦄ ⦃S : Services⦄ (g : StateGraph) where
  initial_adjacency-IsSorted :
      (ids : List String) (adj : Adjacency) → IsSorted adj → IsSorted (initial_adjacency g ids adj)
  unfolding initial_adjacency
  initial_adjacency-IsSorted [] adj s = s
  initial_adjacency-IsSorted (id ∷ ids) adj s =
      initial_adjacency-IsSorted ids (emplace_empty id adj) (emplace_empty-IsSorted id adj s)

  add_edges-IsSorted :
      (es : Map String (List String)) (adj : Adjacency)
      → IsSorted adj
      → OnOk HasOrder (add_edges g es adj)
  unfolding add_edges
  add_edges-IsSorted [] adj s = s
  add_edges-IsSorted ((source, targets) ∷ rest) adj s =
      OnOk-then HasOrder (check_edges g source targets) _
        (add_edges-IsSorted rest (insert source targets adj) (insert-IsSorted source targets adj s))

  add_destinations-IsSorted :
      (what source : String) (ts : List String) (adj : Adjacency)
      → IsSorted adj
      → OnOk HasOrder (add_destinations g what source ts adj)
  unfolding add_destinations
  add_destinations-IsSorted what source [] adj s = s
  add_destinations-IsSorted what source (t ∷ ts) adj s =
      OnOk-then HasOrder (check_target g what t) _ (
        add_destinations-IsSorted what source ts (push_target source adj t)
          (push_target-IsSorted source adj t s))

  add_route-IsSorted :
      (what source : String) (ts : List String) (adj : Adjacency)
      → IsSorted adj
      → OnOk HasOrder (add_route g what source ts adj)
  unfolding add_route
  add_route-IsSorted what source [] adj s = insert-IsSorted source _ adj s
  add_route-IsSorted what source (t ∷ ts) adj s =
      add_destinations-IsSorted what source (t ∷ ts) adj s

  add_routers-IsSorted :
      (rs : Map String RouteHandler) (adj : Adjacency)
      → IsSorted adj
      → OnOk HasOrder (add_routers g rs adj)
  unfolding add_routers
  add_routers-IsSorted [] adj s = s
  add_routers-IsSorted ((source, router) ∷ rest) adj s =
      OnOk-then HasOrder (check_router g source) _ (
        OnOk-bind HasOrder HasOrder
          (add_route g "router target is unknown: " source
            (targets_of (lookup source g.router_destinations)) adj)
          (add_routers g rest) (add_route-IsSorted _ source _ adj s) (add_routers-IsSorted rest))

  add_command_routes-IsSorted :
      (rs : Map String (List String)) (adj : Adjacency)
      → IsSorted adj
      → OnOk HasOrder (add_command_routes g rs adj)
  unfolding add_command_routes
  add_command_routes-IsSorted [] adj s = s
  add_command_routes-IsSorted ((source, ts) ∷ rest) adj s =
      OnOk-then HasOrder (check_command g source) _ (
        OnOk-bind HasOrder HasOrder (add_route g "command target is unknown: " source ts adj)
          (add_command_routes g rest) (add_route-IsSorted _ source _ adj s)
          (add_command_routes-IsSorted rest))

  add_default_ends-IsSorted :
      (ids : List String) (adj : Adjacency) → IsSorted adj → IsSorted (add_default_ends g ids adj)
  unfolding add_default_ends
  add_default_ends-IsSorted [] adj s = s
  add_default_ends-IsSorted (id ∷ ids) adj s = elim (Bool-cases (has_route g id)) [
    | inl leads ↦ rw leads (add_default_ends-IsSorted ids adj s)
    | inr ends ↦ rw ends (add_default_ends-IsSorted ids _ (push_target-IsSorted id adj end_node s))
  ]

  -- The adjacency map that `validate` builds, where it builds one, has its keys in order and each
  -- once.
  pub adjacency-IsSorted : (adj : Adjacency) → adjacency g ≡ ok adj → IsSorted adj
  unfolding adjacency
  adjacency-IsSorted adj e = OnOk-eq HasOrder (adjacency g) adj all e
    where
      blank : Adjacency
      blank =
          initial_adjacency g (node_names g g.nodes)
            (emplace_empty end_node (emplace_empty start_node []))

      blank-IsSorted : IsSorted blank
      blank-IsSorted =
          initial_adjacency-IsSorted (node_names g g.nodes) _
            (emplace_empty-IsSorted end_node _ (emplace_empty-IsSorted start_node [] tt))

      all : OnOk HasOrder (adjacency g)
      all =
          OnOk-bind HasOrder HasOrder (add_edges g g.edges blank) _
            (add_edges-IsSorted g.edges blank blank-IsSorted)
            λ a ha.
              OnOk-bind HasOrder HasOrder (add_routers g g.routers a) _
                (add_routers-IsSorted g.routers a ha)
                λ b hb.
                  OnOk-bind HasOrder HasOrder (add_command_routes g g.command_destinations b) _
                    (add_command_routes-IsSorted g.command_destinations b hb)
                    λ c hc. add_default_ends-IsSorted (node_names g g.nodes) c hc
