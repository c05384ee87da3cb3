-- ===== src/Graph/Validate/Reverse.antt =====
-- `reverseAdjacency` against the edges and the walks of the adjacency map.
use langgraph_cpp.Prelude.{
  String, ◌≡◌, refl, sym, ◌∙◌, ap, Bool, true, false, List, [], ◌∷◌, ◌++◌, none, if◌then◌else◌,
  ◌||◌, text_key, ◌==◌, key_eq_iff, Bool-cases, inl, inr, targets_of, member_of, any, arith,
}
use langgraph_cpp.Prelude.Map.{lookup, contains, lookup-insert, IsUnique}
use langgraph_cpp.Graph.Reach.{Adjacency, successors}
use langgraph_cpp.Graph.Reach.Correct.{Reach, here, step}
use langgraph_cpp.Graph.Validate.{emplace_empty, push_target, reverse_edges, reverse_adjacency}

abbrev pub IsEdge : Adjacency → String → String → Type 0
IsEdge adj u v = member_of v (successors adj u) ≡ true

member_of-append :
    (x y : String) (s : List String) → member_of x (s ++ y ∷ []) ≡ (member_of x s || y == x)
unfolding any
member_of-append x y [] = ground arith
member_of-append x y (z ∷ s) = ground (arith, member_of-append x y s)

successors-push_target :
    (source target u : String) (adj : Adjacency)
    → successors (push_target source adj target) u
      ≡ (if source == u then successors adj source ++ target ∷ [] else successors adj u)
unfolding push_target
successors-push_target source target u adj =
    ap targets_of (lookup-insert source u (successors adj source ++ target ∷ []) adj) ∙ ground arith

successors-emplace_empty :
    (node u : String) (adj : Adjacency) → successors (emplace_empty node adj) u ≡ successors adj u
unfolding emplace_empty
successors-emplace_empty node u adj = elim (Bool-cases (contains node adj)) [
  | inl there ↦ rw there refl
  | inr new ↦
      rw new (ap targets_of (lookup-insert node u [] adj) ∙ ground (arith, key_eq_iff node u))
]

-- Turning round the edges of one entry adds an edge from each target back to the node.
reverse_edges_lem :
    (node u v : String) (ts : List String) (rev : Adjacency)
    → member_of v (successors (reverse_edges node ts rev) u)
      ≡ (member_of v (successors rev u) || (if member_of u ts then node == v else false))
unfolding reverse_edges any
reverse_edges_lem node u v [] rev = ground arith
reverse_edges_lem node u v (t ∷ ts) rev =
    reverse_edges_lem node u v ts (push_target t rev node)
    ∙ ground (
      arith,
      successors-push_target t node u rev,
      member_of-append v node (successors rev t),
      key_eq_iff t u,
    )

-- Some entry of the map for `u` lists `v`.
abbrev listed : Adjacency → String → String → Bool
listed [] u v = false
listed ((n, ts) ∷ adj) u v = (if n == u then member_of v ts else false) || listed adj u v

reverse_adjacency_lem :
    (adj rev : Adjacency) (u v : String)
    → member_of v (successors (reverse_adjacency adj rev) u)
      ≡ (member_of v (successors rev u) || listed adj v u)
unfolding reverse_adjacency
reverse_adjacency_lem [] rev u v = ground arith
reverse_adjacency_lem ((n, ts) ∷ adj) rev u v =
    reverse_adjacency_lem adj (reverse_edges n ts (emplace_empty n rev)) u v
    ∙ ground
        (arith, reverse_edges_lem n u v ts (emplace_empty n rev), successors-emplace_empty n u rev)

listed_absent : (adj : Adjacency) (u v : String) → lookup u adj ≡ none → listed adj u v ≡ false
unfolding lookup
listed_absent [] u v h = refl
listed_absent ((n, ts) ∷ adj) u v h = ground (arith, listed_absent adj u v)

listed-IsUnique :
    (adj : Adjacency) (u v : String)
    → IsUnique adj
    → listed adj u v ≡ member_of v (successors adj u)
unfolding lookup any
listed-IsUnique [] u v h = refl
listed-IsUnique ((n, ts) ∷ adj) u v h =
    ground (arith, listed-IsUnique adj u v h.1, listed_absent adj u v, key_eq_iff n u)

-- An edge of the reversed map is an edge of the map, the other way.
pub reverse_adjacency-IsEdge :
    (adj : Adjacency) (u v : String)
    → IsUnique adj
    → member_of v (successors (reverse_adjacency adj []) u) ≡ member_of u (successors adj v)
unfolding lookup any
reverse_adjacency-IsEdge adj u v h = reverse_adjacency_lem adj [] u v ∙ listed-IsUnique adj v u h

pub Reach-prepend :
    {adj : Adjacency} {u v w : String} → IsEdge adj v u → Reach adj u w → Reach adj v w
Reach-prepend e here = step here e
Reach-prepend e (step r f) = step (Reach-prepend e r) f

-- A walk in the reversed map is a walk in the map, the other way.
pub Reach-reverse :
    (adj : Adjacency) (s : String) (v : String)
    → IsUnique adj
    → Reach (reverse_adjacency adj []) s v
    → Reach adj v s
Reach-reverse adj s v h here = here
Reach-reverse adj s v h (step {u} {v = w} r e) =
    Reach-prepend (sym (reverse_adjacency-IsEdge adj u w h) ∙ e) (Reach-reverse adj s u h r)

pub Reach-reverse_back :
    (adj : Adjacency) (v s : String)
    → IsUnique adj
    → Reach adj v s
    → Reach (reverse_adjacency adj []) s v
Reach-reverse_back adj v s h here = here
Reach-reverse_back adj v s h (step {u} {v = w} r e) =
    Reach-prepend (reverse_adjacency-IsEdge adj w u h ∙ e) (Reach-reverse_back adj v u h r)
