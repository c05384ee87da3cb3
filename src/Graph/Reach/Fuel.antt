-- ===== src/Graph/Reach/Fuel.antt =====
-- The fuel of the search for reachable nodes.
use langgraph_cpp.Prelude.{
  ℕ, zero, suc, ◌+◌, ◌≤◌, ◌≡◌, refl, String, false, some, List, [], ◌∷◌, if◌then◌else◌, length,
  text_key, ◌==◌, arith, Bool-cases, inl, inr, member_of, add_to_set, member_of-add_to_set,
}
use langgraph_cpp.Prelude.Map.{lookup}
use langgraph_cpp.Graph.Reach.{
  Adjacency, successors, push_new, search_loop, open_edges, reachable_from,
}

length-push_new :
    (visited ts stack : List String) → length (push_new visited ts stack) ≤ length ts + length stack
unfolding push_new
length-push_new visited [] stack = omega arith
length-push_new visited (t ∷ ts) stack =
    ground (arith, length-push_new visited ts (if member_of t visited then stack else t ∷ stack))

open_edges-add_le :
    (adj : Adjacency) (x : String) (visited : List String)
    → open_edges adj (add_to_set x visited) ≤ open_edges adj visited
unfolding open_edges
open_edges-add_le [] x visited = omega arith
open_edges-add_le ((n, ts) ∷ adj) x visited =
    ground (arith, open_edges-add_le adj x visited, member_of-add_to_set x n visited)

open_edges-add :
    (adj : Adjacency) (x : String) (visited : List String)
    → member_of x visited ≡ false
    → open_edges adj (add_to_set x visited) + length (successors adj x) ≤ open_edges adj visited
unfolding open_edges lookup
open_edges-add [] x visited h = omega arith
open_edges-add ((n, ts) ∷ adj) x visited h = elim (Bool-cases (n == x)) [
  | inl here ↦ ground (
    arith,
    open_edges-add_le adj x visited,
    member_of-add_to_set x n visited,
    text_key.cmp_iff n x,
    text_key.cmp_iff x n,
  )
  | inr there ↦ ground (
    arith,
    open_edges-add adj x visited h,
    member_of-add_to_set x n visited,
    text_key.cmp_iff n x,
    text_key.cmp_iff x n,
  )
]

search_loop_total :
    (adj : Adjacency) (fuel : ℕ) (visited stack : List String)
    → open_edges adj visited + length stack ≤ fuel
    → (r : List String) × (search_loop adj fuel visited stack ≡ some r)
unfolding search_loop
search_loop_total adj fuel visited [] h = (visited, refl)
search_loop_total adj zero visited (node ∷ stack) h = absurd (omega arith)
search_loop_total adj (suc fuel) visited (node ∷ stack) h =
    elim (Bool-cases (member_of node visited)) [
      | inl old ↦ rw old (search_loop_total adj fuel visited stack (omega arith))
      | inr new ↦ rw new (
          search_loop_total adj fuel (add_to_set node visited)
            (push_new (add_to_set node visited) (successors adj node) stack)
            (omega (
              arith,
              open_edges-add adj node visited new,
              length-push_new (add_to_set node visited) (successors adj node) stack,
            )))
    ]

pub reachable_from_total :
    (adj : Adjacency) (start : String) → (r : List String) × (reachable_from adj start ≡ some r)
unfolding reachable_from
reachable_from_total adj start =
    search_loop_total adj (suc (suc (open_edges adj []))) [] (start ∷ []) (omega arith)
