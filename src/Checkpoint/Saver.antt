-- ===== src/Checkpoint/Saver.antt =====
-- `InMemorySaver` of src/langgraph/checkpoint/in_memory_saver.cpp; its lock makes each operation one
-- step on the two maps.
pub mod Lookup
pub mod Maintain
pub mod Refines
use langgraph_cpp.Prelude.{
  ℕ, zero, suc, ◌+◌, ◌-◌, ◌^◌, String, Bool, true, false, Option, none, some, List, [], ◌∷◌, ◌++◌,
  reverse, Result, ok, err, fail, fail_if, ◌>>=◌, ◌>>◌, already_exists, ◌==◌, text_key, nat_key,
  if◌then◌else◌, has_value, ltb, not, ◌&&◌, ◌||◌, length, keep, any, is_empty, find_if, stable_sort,
  add_to_set, member_of, to_string, labelled, compare,
}
use langgraph_cpp.Prelude.Map.{Map, lookup, insert, erase}
use langgraph_cpp.Json.{JsonLib}
use langgraph_cpp.Checkpoint.Types.{
  Checkpoint, CheckpointWrite, CheckpointQuery, CheckpointWriteSet, CheckpointTuple,
  CheckpointMaintenanceResult, validate_checkpoint_for_store, validate_checkpoint_query,
  normalize_write_set, key_of, sized, checkpoint_write_storage_key,
}
use text.Mathlib.Text.{starts_with}

module _ ⦃J : JsonLib⦄ where
  pub record InMemorySaver : Type 0 where
    pub checkpoints : Map String (List Checkpoint)
    pub writes : Map String (List CheckpointWrite)

  abbrev pub new_saver : InMemorySaver
  new_saver = record { checkpoints = []; writes = [] }

  abbrev pub history_of : Option (List Checkpoint) → List Checkpoint
  history_of none = []
  history_of (some cs) = cs

  abbrev pub writes_of : Option (List CheckpointWrite) → List CheckpointWrite
  writes_of none = []
  writes_of (some ws) = ws

  -- The stored checkpoints of a thread.
  abbrev pub history : InMemorySaver → String → List Checkpoint
  history s thread = history_of (lookup thread s.checkpoints)

  abbrev pub same_id : String → String → Checkpoint → Bool
  same_id ns id c = c.checkpoint_namespace == ns && c.checkpoint_id == id

  -- By step, then by the moment of creation.
  pub comes_before : Checkpoint → Checkpoint → Bool
  comes_before a b = if a.step == b.step then ltb a.created_at b.created_at else ltb a.step b.step

  unfoldable pub put : Checkpoint → InMemorySaver → Result InMemorySaver
  unfolding validate_checkpoint_for_store stable_sort comes_before any
  put c s = do
    validate_checkpoint_for_store c
    fail_if (any (same_id c.checkpoint_namespace c.checkpoint_id) (history s c.thread_id))
        already_exists "checkpoint already exists"
    ok (record {
      checkpoints =
          insert c.thread_id (stable_sort comes_before (history s c.thread_id ++ c ∷ []))
            s.checkpoints;
      writes = s.writes;
    })

  abbrev order_value : Option ℕ → ℕ
  order_value none = 2 ^ 64 - 1
  order_value (some n) = n

  abbrev same_order : Option ℕ → Option ℕ → Bool
  same_order none none = true
  same_order none (some n) = false
  same_order (some m) none = false
  same_order (some m) (some n) = m == n

  -- The write that one with the same task, path and order replaces.
  abbrev pub same_slot : CheckpointWrite → CheckpointWrite → Bool
  same_slot w e = e.task_id == w.task_id && e.task_path == w.task_path && same_order e.order w.order

  abbrev below : String → String → Bool
  below a b = elim (text_key.cmp a b) [ Prim.Native.Nat.Ordering.lt ↦ true | _ ↦ false ]

  pub write_comes_before : CheckpointWrite → CheckpointWrite → Bool
  write_comes_before a b =
      if a.task_id == b.task_id
      then (if a.task_path == b.task_path
          then ltb (order_value a.order) (order_value b.order)
          else below a.task_path b.task_path)
      else below a.task_id b.task_id

  -- Replaces the first write in the same slot, or adds one.
  pub store_write : CheckpointWrite → List CheckpointWrite → List CheckpointWrite
  store_write w [] = w ∷ []
  store_write w (e ∷ es) = let rest = store_write w es in if same_slot w e then w ∷ es else e ∷ rest

  pub store_writes : List CheckpointWrite → List CheckpointWrite → List CheckpointWrite
  unfolding store_write
  store_writes [] stored = stored
  store_writes (w ∷ ws) stored = store_writes ws (store_write w stored)

  pub put_writes : CheckpointWriteSet → InMemorySaver → Result InMemorySaver
  unfolding normalize_write_set store_writes stable_sort write_comes_before
      checkpoint_write_storage_key
  put_writes set s = do
    ws ← normalize_write_set set
    let key = checkpoint_write_storage_key set.thread_id set.checkpoint_namespace set.checkpoint_id
    ok (record {
      checkpoints = s.checkpoints;
      writes =
          insert key
            (stable_sort write_comes_before (store_writes ws (writes_of (lookup key s.writes))))
            s.writes;
    })

  -- The checkpoint that a query means: the one with its id, or the last one of the namespace.
  unfoldable pub find_checkpoint : CheckpointQuery → List Checkpoint → Option Checkpoint
  unfolding find_if
  find_checkpoint q cs = elim q.checkpoint_id [
    | some id ↦ find_if (same_id q.checkpoint_namespace id) cs
    | none ↦ find_if (λ c. c.checkpoint_namespace == q.checkpoint_namespace) (reverse cs)
  ]

  unfoldable pub with_pending : Checkpoint → List CheckpointWrite → Checkpoint
  with_pending c ws = record {
    thread_id = c.thread_id;
    checkpoint_id = c.checkpoint_id;
    checkpoint_namespace = c.checkpoint_namespace;
    parent_checkpoint_id = c.parent_checkpoint_id;
    step = c.step;
    state = c.state;
    next_nodes = c.next_nodes;
    next_tasks = c.next_tasks;
    writes = c.writes;
    pending_writes = ws;
    channel_versions = c.channel_versions;
    versions_seen = c.versions_seen;
    updated_channels = c.updated_channels;
    metadata = c.metadata;
    created_at = c.created_at;
  }

  -- A checkpoint that has no pending writes of its own has those stored for it.
  unfoldable pub tuple_of : Map String (List CheckpointWrite) → Checkpoint → CheckpointTuple
  unfolding with_pending checkpoint_write_storage_key
  tuple_of stored c =
      let pending =
        if is_empty c.pending_writes
        then writes_of (lookup (key_of c) stored)
        else c.pending_writes in
      record { checkpoint = with_pending c pending; pending_writes = pending }

  unfoldable pub tuple_if :
      Map String (List CheckpointWrite) → Option Checkpoint → Option CheckpointTuple
  unfolding tuple_of
  tuple_if stored none = none
  tuple_if stored (some c) = some (tuple_of stored c)

  unfoldable pub get_tuple : CheckpointQuery → InMemorySaver → Result (Option CheckpointTuple)
  unfolding validate_checkpoint_query find_checkpoint tuple_if
  get_tuple q s = do
    validate_checkpoint_query q
    ok (tuple_if s.writes (find_checkpoint q (history s q.thread_id)))

  checkpoint_if : Option CheckpointTuple → Option Checkpoint
  checkpoint_if none = none
  checkpoint_if (some t) = some t.checkpoint

  pub get : CheckpointQuery → InMemorySaver → Result (Option Checkpoint)
  unfolding get_tuple checkpoint_if
  get q s = get_tuple q s >>= λ t. ok (checkpoint_if t)

  -- Drops the entries whose key starts with the thread's sized name and a bar.
  drop_thread_writes :
      String → Map String (List CheckpointWrite) → Map String (List CheckpointWrite)
  unfolding sized
  drop_thread_writes thread [] = []
  drop_thread_writes thread ((key, ws) ∷ rest) =
      let others = drop_thread_writes thread rest in
      if starts_with key (labelled (sized thread) "|") then others else (key, ws) ∷ others

  unfoldable pub delete_thread : String → InMemorySaver → InMemorySaver
  unfolding drop_thread_writes
  delete_thread thread s = record {
    checkpoints = erase thread s.checkpoints;
    writes = drop_thread_writes thread s.writes;
  }

  -- A call that is refused leaves the saver as it is.
  abbrev pub kept_or : InMemorySaver → Result InMemorySaver → InMemorySaver × Result (Unit {0})
  kept_or s (ok t) = (t, ok tt)
  kept_or s (err e) = (s, err e)
