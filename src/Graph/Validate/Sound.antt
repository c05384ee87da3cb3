-- ===== src/Graph/Validate/Sound.antt =====
-- What a graph that `validate` accepts is like.
use langgraph_cpp.Prelude.{
  String, ◌≡◌, ◌≢◌, refl, sym, ◌∙◌, subst, Bool, true, false, List, [], ◌∷◌, Result, ok, fail_if,
  >>=-eq-ok, not, ◌&&◌, text_key, ◌==◌, key_eq_iff, ◌↔◌, ◌>>◌, StatusCode, Bool-cases, inl, inr,
  member_of, any, arith,
}
use langgraph_cpp.Prelude.Map.{Map, lookup, contains, IsSorted-IsUnique, IsUnique}
use langgraph_cpp.Json.{JsonLib}
use langgraph_cpp.State.{Services}
use langgraph_cpp.Graph.Task.{start_node, end_node}
use langgraph_cpp.Graph.Types.{StateGraph, NodeSpec}
use langgraph_cpp.Graph.Reach.{Adjacency}
use langgraph_cpp.Graph.Reach.Correct.{Reach, reachable_from-Reach}
use langgraph_cpp.Graph.Validate.{
  reverse_adjacency, reachable_set, check_can_reach_end, node_names, check_nodes_reachable,
  check_reachability, adjacency, validate,
}
use langgraph_cpp.Graph.Validate.Sorted.{adjacency-IsSorted}
use langgraph_cpp.Graph.Validate.Reverse.{Reach-reverse}

reachable_set-Reach :
    (adj : Adjacency) (s v : String) → (member_of v (reachable_set adj s) ≡ true) ↔ Reach adj s v
unfolding reachable_set
reachable_set-Reach adj s v = let (r, e, found) = reachable_from-Reach adj s in rw e (found v)

-- `fail_if b c m; k` goes through exactly when the test fails and `k` goes through.
guard_iff :
    (b : Bool) (c : StatusCode) (m : String) (k : Result (Unit {0}))
    → ((fail_if b c m >> k) ≡ ok tt) ↔ ((b ≡ false) × (k ≡ ok tt))
guard_iff true c m k = (λ e. cc, λ h. cc)
guard_iff false c m k = (λ e. (refl, e), λ h. h.1)

leads :
    (can : List String) (u : String)
    → ((not (u == end_node) && not (member_of u can)) ≡ false)
      ↔ (u ≢ end_node → member_of u can ≡ true)
leads can u = (
  λ e n. ground (arith, key_eq_iff u end_node),
  λ h. elim (Bool-cases (u == end_node)) [
    | inl is_end ↦ rw is_end refl
    | inr other ↦ rw (other, h (λ same. ground (arith, key_eq_iff u end_node))) refl
  ],
)

not-false : (b : Bool) → not b ≡ false → b ≡ true
not-false true e = refl
not-false false e = cc

check_can_reach_end_to :
    (can nodes : List String) (v : String)
    → check_can_reach_end can nodes ≡ ok tt
    → member_of v nodes ≡ true
    → v ≢ end_node
    → member_of v can ≡ true
unfolding check_can_reach_end any
check_can_reach_end_to can [] v e m n = cc
check_can_reach_end_to can (u ∷ us) v e m n =
    let (first, rest) = (guard_iff _ _ _ _).0 e in
    elim (Bool-cases (u == v)) [
      | inl same ↦
          let eq : u ≡ v = (key_eq_iff u v).0 same in
          subst (λ x. member_of x can ≡ true) eq ((leads can u).0 first (λ w. n (sym eq ∙ w)))
      | inr other ↦ check_can_reach_end_to can us v rest (rw other at m) n
    ]

check_can_reach_end_from :
    (can nodes : List String)
    → ((v : String) → member_of v nodes ≡ true → v ≢ end_node → member_of v can ≡ true)
    → check_can_reach_end can nodes ≡ ok tt
unfolding check_can_reach_end any
check_can_reach_end_from can [] h = refl
check_can_reach_end_from can (u ∷ us) h = (guard_iff _ _ _ _).1 (
  (leads can u).1 (h u (ground (arith, key_eq_iff u u))),
  check_can_reach_end_from can us (λ v m n. h v (ground arith) n),
)

module _ ⦃J : JsonLib⦄ ⦃S : Services⦄ (g : StateGraph) where
  check_nodes_reachable_to :
      (seen : List String) (nodes : Map String NodeSpec) (v : String)
      → check_nodes_reachable g seen (node_names g nodes) ≡ ok tt
      → contains v nodes ≡ true
      → member_of v seen ≡ true
  unfolding check_nodes_reachable node_names lookup
  check_nodes_reachable_to seen [] v e m = cc
  check_nodes_reachable_to seen ((u, spec) ∷ rest) v e m =
      let (first, later) = (guard_iff _ _ _ _).0 e in
      elim (Bool-cases (u == v)) [
        | inl same ↦
            subst (λ x. member_of x seen ≡ true) ((key_eq_iff u v).0 same) (not-false _ first)
        | inr other ↦ check_nodes_reachable_to seen rest v later (rw other at m)
      ]

  -- The reachability checks on a map with its keys in order: END is reached, every node is
  -- reached, and END can be reached from all that is reached.
  check_reachability-Reach :
      (adj : Adjacency)
      → IsUnique adj
      → check_reachability g adj ≡ ok tt
      → Reach adj start_node end_node
        × ((v : String) → contains v g.nodes ≡ true → Reach adj start_node v)
        × ((v : String) → Reach adj start_node v → v ≢ end_node → Reach adj v end_node)
  unfolding check_reachability
  check_reachability-Reach adj u e =
      let (first, rest) = (guard_iff _ _ _ _).0 e in
      let (u2, seen, can) = >>=-eq-ok _ _ rest in
      (
        (reachable_set-Reach adj start_node end_node).0 (not-false _ first),
        (λ v m.
            (reachable_set-Reach adj start_node v).0
              (check_nodes_reachable_to (reachable_set adj start_node) g.nodes v seen m)),
        (λ v r n. Reach-reverse adj end_node v u (
            (reachable_set-Reach (reverse_adjacency adj []) end_node v).0 (
              check_can_reach_end_to _ (reachable_set adj start_node) v can
                ((reachable_set-Reach adj start_node v).1 r) n))),
      )

  -- A graph that `validate` accepts has an adjacency map in which a walk leads from START to END,
  -- a walk leads from START to every node of the graph, and from every node of the graph and
  -- from all else that START leads to, other than END itself, a walk leads to END.
  pub validate-Reach :
      validate g ≡ ok tt
      → (adj : Adjacency) × (adjacency g ≡ ok adj)
        × Reach adj start_node end_node
        × ((v : String) → contains v g.nodes ≡ true → Reach adj start_node v)
        × ((v : String) → Reach adj start_node v → v ≢ end_node → Reach adj v end_node)
  unfolding validate
  validate-Reach e =
      let (first, rest) = (guard_iff _ _ _ _).0 e in
      let (adj, built, checked) = >>=-eq-ok (adjacency g) _ rest in
      let ordered = IsSorted-IsUnique adj (adjacency-IsSorted g adj built) in
      let (ends, all, leads_on) = check_reachability-Reach adj ordered checked in
      (adj, built, ends, all, leads_on)
