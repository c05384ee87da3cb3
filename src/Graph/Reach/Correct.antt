-- ===== src/Graph/Reach/Correct.antt =====
-- `reachableFrom` against the walks along the adjacency map.
use langgraph_cpp.Graph.Reach.Fuel.{reachable_from_total}
use langgraph_cpp.Prelude.{
  ℕ, zero, suc, ◌≡◌, sym, ◌∙◌, subst, String, true, false, some, List, [], ◌∷◌, if◌then◌else◌, any,
  text_key, key_eq_iff, ◌==◌, arith, Bool-cases, inl, inr, ◌||◌, member_of, add_to_set,
  member_of-add_to_set, ◌↔◌,
}
use langgraph_cpp.Graph.Reach.{
  Adjacency, successors, push_new, search_loop, open_edges, reachable_from,
}

-- The walks from `start`.
pub data Reach (adj : Adjacency) (start : String) : String → Type 0 where
  here : Reach adj start start
  step :
      {u v : String} → Reach adj start u → member_of v (successors adj u) ≡ true → Reach adj start v

module _ (adj : Adjacency) (start : String) where
  abbrev AllReach : List String → Type 0
  AllReach xs = (v : String) → member_of v xs ≡ true → Reach adj start v

  AllReach-cons :
      (u : String) (xs : List String) → Reach adj start u → AllReach xs → AllReach (u ∷ xs)
  unfolding any
  AllReach-cons u xs r h v m = elim (Bool-cases (u == v)) [
    | inl same ↦ subst (Reach adj start) ((key_eq_iff u v).0 same) r
    | inr other ↦ h v (ground arith)
  ]

  AllReach-add :
      (u : String) (xs : List String) → Reach adj start u → AllReach xs → AllReach (add_to_set u xs)
  unfolding any
  AllReach-add u xs r h v m =
      AllReach-cons u xs r h v (grow (sym (member_of-add_to_set u v xs) ∙ m))
    where
      grow : (u == v || member_of v xs) ≡ true → member_of v (u ∷ xs) ≡ true
      grow e = ground arith

  AllReach-push_new :
      (visited ts stack : List String)
      → AllReach ts
      → AllReach stack
      → AllReach (push_new visited ts stack)
  unfolding push_new any
  AllReach-push_new visited [] stack ht hs = hs
  AllReach-push_new visited (t ∷ ts) stack ht hs = elim (Bool-cases (member_of t visited)) [
    | inl old ↦ rw old (AllReach-push_new visited ts stack (λ v m. ht v (ground arith)) hs)
    | inr new ↦ rw new (
        AllReach-push_new visited ts (t ∷ stack) (λ v m. ht v (ground arith))
          (AllReach-cons t stack (ht t (ground (arith, key_eq_iff t t))) hs))
  ]

  search_loop-AllReach :
      (fuel : ℕ) (visited stack r : List String)
      → AllReach visited
      → AllReach stack
      → search_loop adj fuel visited stack ≡ some r
      → AllReach r
  unfolding search_loop any
  search_loop-AllReach fuel visited [] r hv hs e =
      let same : visited ≡ r = cc in subst AllReach same hv
  search_loop-AllReach zero visited (u ∷ stack) r hv hs e = cc
  search_loop-AllReach (suc fuel) visited (u ∷ stack) r hv hs e =
      elim (Bool-cases (member_of u visited)) [
        | inl old ↦ search_loop-AllReach fuel visited stack r hv rest (rw old at e)
        | inr new ↦
            search_loop-AllReach fuel (add_to_set u visited)
              (push_new (add_to_set u visited) (successors adj u) stack) r
              (AllReach-add u visited at_u hv)
              (AllReach-push_new (add_to_set u visited) (successors adj u) stack
                (λ v m. step at_u m) rest)
              (rw new at e)
      ]
    where
      at_u : Reach adj start u
      at_u = hs u (ground (arith, key_eq_iff u u))

      rest : AllReach stack
      rest v m = hs v (ground arith)

  -- Each successor of a visited node is visited or waits on the stack.
  abbrev Closed : List String → List String → Type 0
  Closed visited stack =
      (u v : String)
      → member_of u visited ≡ true
      → member_of v (successors adj u) ≡ true
      → (member_of v visited || member_of v stack) ≡ true

  push_new-keeps :
      (visited ts stack : List String) (v : String)
      → member_of v stack ≡ true
      → member_of v (push_new visited ts stack) ≡ true
  unfolding push_new any
  push_new-keeps visited [] stack v h = h
  push_new-keeps visited (t ∷ ts) stack v h =
      push_new-keeps visited ts (if member_of t visited then stack else t ∷ stack) v (ground arith)

  push_new-adds :
      (visited ts stack : List String) (v : String)
      → member_of v ts ≡ true
      → (member_of v visited || member_of v (push_new visited ts stack)) ≡ true
  unfolding push_new any
  push_new-adds visited [] stack v h = cc
  push_new-adds visited (t ∷ ts) stack v h = elim (Bool-cases (t == v)) [
    | inr other ↦
        push_new-adds visited ts (if member_of t visited then stack else t ∷ stack) v (ground arith)
    | inl same ↦ elim (Bool-cases (member_of t visited)) [
      | inl old ↦ ground (arith, key_eq_iff t v)
      | inr new ↦ rw new (ground (arith, push_new-keeps visited ts (t ∷ stack) v))
    ]
  ]

  member_of-subst :
      (u v : String) (xs : List String)
      → (u == v) ≡ true
      → member_of u xs ≡ true
      → member_of v xs ≡ true
  member_of-subst u v xs same m = subst (λ x. member_of x xs ≡ true) ((key_eq_iff u v).0 same) m

  -- The invariant when a node that was seen before is dropped, and when a new one is opened.
  Closed-drop :
      (visited stack : List String) (u : String)
      → member_of u visited ≡ true
      → (v : String) → (member_of v visited || member_of v (u ∷ stack)) ≡ true
      → (member_of v visited || member_of v stack) ≡ true
  unfolding any
  Closed-drop visited stack u old v m =
      ground (arith, λ (s : (u == v) ≡ true). member_of-subst u v visited s old)

  Closed-open :
      (visited stack : List String) (u v : String)
      → (member_of v visited || member_of v (u ∷ stack)) ≡ true
      → (member_of v (add_to_set u visited)
          || member_of v (push_new (add_to_set u visited) (successors adj u) stack))
        ≡ true
  unfolding any
  Closed-open visited stack u v m = ground (
    arith,
    member_of-add_to_set u v visited,
    push_new-keeps (add_to_set u visited) (successors adj u) stack v,
  )

  Closed-push :
      (visited stack : List String) (u : String)
      → Closed visited (u ∷ stack)
      → Closed (add_to_set u visited) (push_new (add_to_set u visited) (successors adj u) stack)
  Closed-push visited stack u h w v mw mv = elim (Bool-cases (u == w)) [
    | inl same ↦
        push_new-adds (add_to_set u visited) (successors adj u) stack v
          (subst (λ x. member_of v (successors adj x) ≡ true) (sym ((key_eq_iff u w).0 same)) mv)
    | inr other ↦
        Closed-open visited stack u v (h w v (ground (arith, member_of-add_to_set u w visited)) mv)
  ]

  search_loop-Closed :
      (fuel : ℕ) (visited stack r : List String)
      → Closed visited stack
      → search_loop adj fuel visited stack ≡ some r
      → Closed r []
        × ((v : String) → (member_of v visited || member_of v stack) ≡ true → member_of v r ≡ true)
  unfolding search_loop any
  search_loop-Closed fuel visited [] r h e =
      let same : visited ≡ r = cc in
      subst
        (λ s.
          Closed s []
          × ((v : String) → (member_of v visited || false) ≡ true → member_of v s ≡ true))
        same (h, λ v m. ground arith)
  search_loop-Closed zero visited (u ∷ stack) r h e = cc
  search_loop-Closed (suc fuel) visited (u ∷ stack) r h e =
      elim (Bool-cases (member_of u visited)) [
        | inl old ↦
            let (c, k) =
              search_loop-Closed fuel visited stack r
                (λ w v mw mv. Closed-drop visited stack u old v (h w v mw mv)) (rw old at e) in
            (c, λ v m. k v (Closed-drop visited stack u old v m))
        | inr new ↦
            let (c, k) =
              search_loop-Closed fuel (add_to_set u visited)
                (push_new (add_to_set u visited) (successors adj u) stack) r
                (Closed-push visited stack u h) (rw new at e) in
            (c, λ v m. k v (Closed-open visited stack u v m))
      ]

  all_reached :
      (r : List String)
      → Closed r []
      → member_of start r ≡ true
      → (v : String) → Reach adj start v
      → member_of v r ≡ true
  unfolding any
  all_reached r c s v here = s
  all_reached r c s v (step {u} {v = w} walk edge) =
      ground (arith, c u w (all_reached r c s u walk) edge)

found-Reach :
    (adj : Adjacency) (start : String) (r : List String)
    → reachable_from adj start ≡ some r
    → (v : String) → (member_of v r ≡ true) ↔ Reach adj start v
unfolding reachable_from any
found-Reach adj start r e v =
    let (c, k) =
      search_loop-Closed adj start (suc (suc (open_edges adj []))) [] (start ∷ []) r
        (λ w x mw mx. cc) e in
    (
      search_loop-AllReach adj start (suc (suc (open_edges adj []))) [] (start ∷ []) r (λ w m. cc)
          (AllReach-cons adj start start [] here (λ w m. cc)) e v,
      all_reached adj start r c (k start (ground (arith, key_eq_iff start start))) v,
    )

-- `reachableFrom` returns a set, and a node is in it exactly when a walk leads to it.
pub reachable_from-Reach :
    (adj : Adjacency) (start : String)
    → (r : List String) × (reachable_from adj start ≡ some r)
      × ((v : String) → (member_of v r ≡ true) ↔ Reach adj start v)
reachable_from-Reach adj start =
    let (r, found) = reachable_from_total adj start in (r, found, found-Reach adj start r found)
