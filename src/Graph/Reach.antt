-- ===== src/Graph/Reach.antt =====
-- `reachableFrom` of src/langgraph/graph/state_graph.cpp: the nodes that an adjacency map leads to.
pub mod Fuel
pub mod Correct
use langgraph_cpp.Prelude.{
  ℕ, zero, suc, ◌+◌, String, Bool, true, false, Option, none, some, List, [], ◌∷◌, if◌then◌else◌,
  length, text_key, ◌==◌, member_of, add_to_set, targets_of,
}
use langgraph_cpp.Prelude.Map.{Map, lookup}

abbrev pub Adjacency : Type 0
Adjacency = Map String (List String)

abbrev pub successors : Adjacency → String → List String
successors adj node = targets_of (lookup node adj)

-- `if (!visited.contains(target)) stack.push_back(target);` for each target. The head of a list is
-- the back of the stack.
pub push_new : List String → List String → List String → List String
push_new visited [] stack = stack
push_new visited (t ∷ ts) stack =
    push_new visited ts (if member_of t visited then stack else t ∷ stack)

-- The `while` loop; none means that the fuel ran out.
pub search_loop : Adjacency → ℕ → List String → List String → Option (List String)
unfolding push_new add_to_set
search_loop adj fuel visited [] = some visited
search_loop adj zero visited (node ∷ stack) = none
search_loop adj (suc fuel) visited (node ∷ stack) =
    let again = search_loop adj fuel visited stack in
    let fresh = add_to_set node visited in
    let onward = search_loop adj fuel fresh (push_new fresh (successors adj node) stack) in
    if member_of node visited then again else onward

-- The edges that are still to be pushed, those of the nodes not yet visited.
pub open_edges : Adjacency → List String → ℕ
open_edges [] visited = 0
open_edges ((node, targets) ∷ adj) visited =
    (if member_of node visited then 0 else length targets) + open_edges adj visited

-- One push for the start and one for each edge, and a round to find the stack empty.
unfoldable pub reachable_from : Adjacency → String → Option (List String)
unfolding search_loop open_edges
reachable_from adj start = search_loop adj (suc (suc (open_edges adj []))) [] (start ∷ [])
