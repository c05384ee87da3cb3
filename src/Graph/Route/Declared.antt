-- ===== src/Graph/Route/Declared.antt =====
-- Where a router may lead.
use langgraph_cpp.Prelude.{
  String, ◌≡◌, inl, inr, true, false, List, [], ◌∷◌, ◌++◌, ok, fail_if, OnOk, OnOk-bind, OnOk-then,
  OnOk-eq, >>=-eq-ok, ap, ◌==◌, text_key, is_empty, not, ◌&&◌, ◌||◌, member_of, targets_of, All,
  any, has_value, arith, Option-cases, invalid_argument, Bool-cases,
}
use langgraph_cpp.Prelude.Map.{lookup, contains}
use langgraph_cpp.Json.{JsonLib}
use langgraph_cpp.State.{Services, State}
use langgraph_cpp.Graph.Task.{
  CheckpointTask, plain_task, append_plain_task, append_send_task, end_node, is_end, repeats,
}
use langgraph_cpp.Graph.Types.{StateGraph, RouteTarget, Info}
use langgraph_cpp.Graph.Builder.{has_node_or_end}
use langgraph_cpp.Graph.Route.{send_task, add_target, check_routed, add_routed, next_tasks_after}

module _ ⦃J : JsonLib⦄ (P : CheckpointTask → Type 0) where
  All-append_last :
      (ts : List CheckpointTask) (t : CheckpointTask) → All P ts → P t → All P (ts ++ t ∷ [])
  All-append_last [] t h p = (p, tt)
  All-append_last (u ∷ ts) t h p = (h.0, All-append_last ts t h.1 p)

  All-append_plain_task :
      (ts : List CheckpointTask) (t : CheckpointTask)
      → All P ts
      → (is_end t.node_id ≡ false → P t)
      → All P (append_plain_task ts t)
  unfolding append_plain_task
  All-append_plain_task ts t h p = elim (Bool-cases (is_end t.node_id)) [
    | inl ends ↦ rw ends h
    | inr goes ↦
        let added = All-append_last ts t h (p goes) in
        rw goes (elim (Bool-cases (has_value t.order)) [
          | inl ordered ↦ rw ordered added
          | inr plain ↦ rw plain (elim (Bool-cases (any (repeats t.node_id) ts)) [
            | inl again ↦ rw again h
            | inr new ↦ rw new added
          ])
        ])
  ]

  All-append_send_task :
      (ts : List CheckpointTask) (t : CheckpointTask)
      → All P ts
      → (is_end t.node_id ≡ false → P t)
      → All P (append_send_task ts t)
  unfolding append_send_task
  All-append_send_task ts t h p = elim (Bool-cases (is_end t.node_id)) [
    | inl ends ↦ rw ends h
    | inr goes ↦ rw goes (All-append_last ts t h (p goes))
  ]

module _ ⦃J : JsonLib⦄ ⦃S : Services⦄ (g : StateGraph) where
  -- A task for a node of the graph, one of the declared ones where any are.
  abbrev pub IsDeclared : List String → CheckpointTask → Type 0
  IsDeclared declared t =
      (contains t.node_id g.nodes ≡ true)
      × ((is_empty declared || member_of t.node_id declared) ≡ true)

  abbrev IsKnown : List String → String → Type 0
  IsKnown declared node =
      is_end node ≡ false
      → (contains node g.nodes ≡ true) × ((is_empty declared || member_of node declared) ≡ true)

  known_node :
      (node : String)
      → has_node_or_end g node ≡ true
      → is_end node ≡ false
      → contains node g.nodes ≡ true
  unfolding has_node_or_end
  known_node node there goes = ground arith

  check_routed-IsKnown :
      (declared : List String) (node : String)
      → OnOk (λ u. IsKnown declared node) (check_routed g declared node)
  unfolding check_routed
  check_routed-IsKnown declared node = elim (Bool-cases (has_node_or_end g node)) [
    | inr unknown ↦ rw unknown tt
    | inl there ↦
        rw there (elim (Bool-cases (not (is_empty declared) && not (member_of node declared))) [
          | inl outside ↦ rw outside tt
          | inr inside ↦ rw inside (λ goes. (known_node node there goes, ground arith))
        ])
  ]

  add_target-IsDeclared :
      (declared : List String) (tasks : List CheckpointTask) (t : RouteTarget)
      → All (IsDeclared declared) tasks
      → IsKnown declared t.node
      → OnOk (All (IsDeclared declared)) (add_target g tasks t)
  unfolding add_target
  add_target-IsDeclared declared tasks t h known = elim (Option-cases t.arg) [
    | inl plain ↦
        rw plain (All-append_plain_task (IsDeclared declared) tasks (plain_task t.node) h known)
    | inr (arg, sent) ↦ rw sent (
        OnOk-then (All (IsDeclared declared))
          (fail_if (t.node == end_node) invalid_argument "Send target cannot be END")
          (ok (append_send_task tasks (send_task t.node arg)))
          (All-append_send_task (IsDeclared declared) tasks (send_task t.node arg) h known))
  ]

  add_routed-IsDeclared :
      (declared : List String) (targets : List RouteTarget) (tasks : List CheckpointTask)
      → All (IsDeclared declared) tasks
      → OnOk (All (IsDeclared declared)) (add_routed g declared targets tasks)
  unfolding add_routed
  add_routed-IsDeclared declared [] tasks h = h
  add_routed-IsDeclared declared (t ∷ ts) tasks h =
      OnOk-bind (λ u. IsKnown declared t.node) (All (IsDeclared declared))
        (check_routed g declared t.node) _ (check_routed-IsKnown declared t.node)
        (λ u known.
          OnOk-bind (All (IsDeclared declared)) (All (IsDeclared declared)) (add_target g tasks t)
            (add_routed g declared ts) (add_target-IsDeclared declared tasks t h known)
            (λ more k. add_routed-IsDeclared declared ts more k))

  -- The tasks that follow a node with a router, where routing succeeds, are all for nodes of the
  -- graph, and for declared destinations of the router where it declares any, whatever the
  -- router returns.
  pub next_tasks_after-IsDeclared :
      (node : String) (state : State) (info : Info) (ts : List CheckpointTask)
      → contains node g.routers ≡ true
      → next_tasks_after g node state info ≡ ok ts
      → All (IsDeclared (targets_of (lookup node g.router_destinations))) ts
  unfolding next_tasks_after
  next_tasks_after-IsDeclared node state info ts r e = elim (Option-cases (lookup node g.routers)) [
    | inl absent ↦ cc (ap has_value absent)
    | inr (router, there) ↦
        let (routed, ran, checked) =
          >>=-eq-ok (router state info) _ (rw (next_tasks_after, there) at e) in
        OnOk-eq (All (IsDeclared (targets_of (lookup node g.router_destinations)))) _ ts
          (add_routed-IsDeclared (targets_of (lookup node g.router_destinations)) routed [] tt)
          checked
  ]
