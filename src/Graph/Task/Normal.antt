-- ===== src/Graph/Task/Normal.antt =====
-- `normalizeNextTasks`: what a normalised task list looks like.
use langgraph_cpp.Prelude.{
  ◌≡◌, sym, ◌∙◌, inl, inr, Bool, true, false, List, [], ◌∷◌, ◌++◌, not, ◌&&◌, has_value, any,
  is_empty, subst, append-nil, append_assoc, arith, Bool-cases, ◌⊎◌,
}
use langgraph_cpp.Json.{JsonLib}
use langgraph_cpp.Graph.Task.{
  CheckpointTask, is_end, repeats, append_task, append_tasks, normalize_next_tasks,
  is_terminal_next_tasks,
}

module _ ⦃J : JsonLib⦄ where
  -- Neither a branch-local state nor an order number.
  abbrev pub is_plain : CheckpointTask → Bool
  is_plain t = not (has_value t.state) && not (has_value t.order)

  -- A task that may follow `before`: it runs a node, and if it is plain, its node is not yet there.
  abbrev pub Admissible : List CheckpointTask → CheckpointTask → Type 0
  Admissible before t =
      (is_end t.node_id ≡ false) × (is_plain t ≡ true → any (repeats t.node_id) before ≡ false)

  abbrev pub IsNormalAfter : List CheckpointTask → List CheckpointTask → Type 0
  IsNormalAfter before [] = Unit {0}
  IsNormalAfter before (t ∷ ts) = Admissible before t × IsNormalAfter (before ++ t ∷ []) ts

  abbrev pub IsNormal : List CheckpointTask → Type 0
  IsNormal = IsNormalAfter []

  append_task-Admissible :
      (acc : List CheckpointTask) (t : CheckpointTask)
      → Admissible acc t
      → append_task acc t ≡ acc ++ t ∷ []
  unfolding append_task
  append_task-Admissible acc t h = ground arith

  append_task_cases :
      (acc : List CheckpointTask) (t : CheckpointTask)
      → (append_task acc t ≡ acc) ⊎ (Admissible acc t × (append_task acc t ≡ acc ++ t ∷ []))
  unfolding append_task
  append_task_cases acc t = elim (Bool-cases (is_end t.node_id)) [
    | inl ends ↦ inl (ground arith)
    | inr live ↦ elim (Bool-cases (is_plain t)) [
      | inr numbered ↦ inr ((live, λ p. cc), ground arith)
      | inl plain ↦ elim (Bool-cases (any (repeats t.node_id) acc)) [
        | inl again ↦ inl (ground arith)
        | inr first ↦ inr ((live, λ p. first), ground arith)
      ]
    ]
  ]

  IsNormalAfter-snoc :
      (before ts : List CheckpointTask) (t : CheckpointTask)
      → IsNormalAfter before ts
      → Admissible (before ++ ts) t
      → IsNormalAfter before (ts ++ t ∷ [])
  IsNormalAfter-snoc before [] t n h = (subst (λ b. Admissible b t) (append-nil before) h, tt)
  IsNormalAfter-snoc before (x ∷ xs) t n h = (
    n.0,
    IsNormalAfter-snoc (before ++ x ∷ []) xs t n.1
        (subst (λ b. Admissible b t) (sym (append_assoc before (x ∷ []) xs)) h),
  )

  append_tasks-IsNormal :
      (acc ts : List CheckpointTask) → IsNormal acc → IsNormal (append_tasks acc ts)
  unfolding append_tasks
  append_tasks-IsNormal acc [] n = n
  append_tasks-IsNormal acc (t ∷ ts) n = elim (append_task_cases acc t) [
    | inl same ↦ rw same (append_tasks-IsNormal acc ts n)
    | inr (fits, added) ↦
        rw added (append_tasks-IsNormal (acc ++ t ∷ []) ts (IsNormalAfter-snoc [] acc t n fits))
  ]

  append_tasks_normal :
      (acc ts : List CheckpointTask) → IsNormalAfter acc ts → append_tasks acc ts ≡ acc ++ ts
  unfolding append_tasks
  append_tasks_normal acc [] n = sym (append-nil acc)
  append_tasks_normal acc (t ∷ ts) n =
      rw (append_task-Admissible acc t n.0)
        (append_tasks_normal (acc ++ t ∷ []) ts n.1 ∙ append_assoc acc (t ∷ []) ts)

  -- Every task of a normalised list runs a node, and no two plain tasks run the same one.
  pub normalize_next_tasks-IsNormal :
      (ts : List CheckpointTask) → IsNormal (normalize_next_tasks ts)
  unfolding normalize_next_tasks
  normalize_next_tasks-IsNormal ts = append_tasks-IsNormal [] ts tt

  -- A list that is normal already is left as it is.
  pub normalize_next_tasks_normal :
      (ts : List CheckpointTask) → IsNormal ts → normalize_next_tasks ts ≡ ts
  unfolding normalize_next_tasks
  normalize_next_tasks_normal ts n = append_tasks_normal [] ts n

  is_empty-append_task :
      (acc : List CheckpointTask) (t : CheckpointTask)
      → is_empty (append_task acc t) ≡ (is_empty acc && is_end t.node_id)
  unfolding append_task any
  is_empty-append_task [] t = ground arith
  is_empty-append_task (x ∷ xs) t = ground arith

  is_empty-append_tasks :
      (acc ts : List CheckpointTask)
      → is_empty (append_tasks acc ts) ≡ (is_empty acc && is_terminal_next_tasks ts)
  unfolding append_tasks is_terminal_next_tasks
  is_empty-append_tasks acc [] = ground arith
  is_empty-append_tasks acc (t ∷ ts) =
      ground (arith, is_empty-append_tasks (append_task acc t) ts, is_empty-append_task acc t)

  -- The loop of a run ends exactly when normalising leaves no task.
  pub is_empty-normalize_next_tasks :
      (ts : List CheckpointTask) → is_empty (normalize_next_tasks ts) ≡ is_terminal_next_tasks ts
  unfolding normalize_next_tasks
  is_empty-normalize_next_tasks ts = is_empty-append_tasks [] ts
