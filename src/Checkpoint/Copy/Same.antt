-- ===== src/Checkpoint/Copy/Same.antt =====
-- What a copied checkpoint has in common with the one it was copied from.
use langgraph_cpp.Prelude.{
  String, ◌≡◌, refl, sym, Option, none, some, List, [], ◌∷◌, map, if◌then◌else◌, is_empty,
}
use langgraph_cpp.Json.{JsonLib}
use langgraph_cpp.Graph.Task.{CheckpointTask}
use langgraph_cpp.Checkpoint.Types.{Checkpoint, CheckpointWrite, CheckpointTuple}
use langgraph_cpp.Checkpoint.Copy.{
  CheckpointCopyThreadOptions, copied, or_namespace, if_empty, rewrite_task_namespace,
  rewrite_write_namespace, rewrite_checkpoint_for_copy,
}

-- The namespace of the target, where one is given.
abbrev pub in_target : Option String → String → String
in_target target ns = elim target [ none ↦ ns | some given ↦ given ]

map_same : {A : Type 0} (f g : A → A) → ((x : A) → f x ≡ g x) → (xs : List A) → map f xs ≡ map g xs
map_same f g h [] = refl
map_same f g h (x ∷ xs) = λ i. h x i ∷ map_same f g h xs i

map_self : {A : Type 0} (f : A → A) → ((x : A) → f x ≡ x) → (xs : List A) → map f xs ≡ xs
map_self f h [] = refl
map_self f h (x ∷ xs) = λ i. h x i ∷ map_self f h xs i

module _ ⦃J : JsonLib⦄ where
  -- A task and a write in the target's namespace, all else as it was.
  abbrev pub moved_task : Option String → CheckpointTask → CheckpointTask
  moved_task target t = record t { checkpoint_namespace = in_target target t.checkpoint_namespace }

  abbrev pub moved_write : Option String → CheckpointWrite → CheckpointWrite
  moved_write target w = record w {
    checkpoint_namespace = in_target target w.checkpoint_namespace;
    next_tasks = map (moved_task target) w.next_tasks;
  }

  -- The pending writes beside a listed checkpoint stand in for those of its own, where it has none.
  abbrev pub moved_pending : Option String → CheckpointTuple → List CheckpointWrite
  moved_pending target t =
      if is_empty t.checkpoint.pending_writes
      then t.pending_writes
      else map (moved_write target) t.checkpoint.pending_writes

  -- The listed checkpoint in the target thread and namespace.
  abbrev pub moved : CheckpointCopyThreadOptions → CheckpointTuple → Checkpoint
  moved o t = record {
    thread_id = o.target_thread_id;
    checkpoint_id = t.checkpoint.checkpoint_id;
    checkpoint_namespace =
        in_target o.target_checkpoint_namespace t.checkpoint.checkpoint_namespace;
    parent_checkpoint_id = t.checkpoint.parent_checkpoint_id;
    step = t.checkpoint.step;
    state = t.checkpoint.state;
    next_nodes = t.checkpoint.next_nodes;
    next_tasks = map (moved_task o.target_checkpoint_namespace) t.checkpoint.next_tasks;
    writes = map (moved_write o.target_checkpoint_namespace) t.checkpoint.writes;
    pending_writes = moved_pending o.target_checkpoint_namespace t;
    channel_versions = t.checkpoint.channel_versions;
    versions_seen = t.checkpoint.versions_seen;
    updated_channels = t.checkpoint.updated_channels;
    metadata = t.checkpoint.metadata;
    created_at = t.checkpoint.created_at;
  }

  same_task :
      (target : Option String) (t : CheckpointTask)
      → rewrite_task_namespace target t ≡ moved_task target t
  unfolding rewrite_task_namespace
  same_task none t = refl
  same_task (some ns) t = refl

  same_write :
      (target : Option String) (w : CheckpointWrite)
      → rewrite_write_namespace target w ≡ moved_write target w
  unfolding rewrite_write_namespace
  same_write none w =
      λ i. record w { next_tasks = sym (map_self (moved_task none) (λ t. refl) w.next_tasks) i }
  same_write (some ns) w = λ i. record w {
    checkpoint_namespace = ns;
    next_tasks =
        map_same (rewrite_task_namespace (some ns)) (moved_task (some ns)) (same_task (some ns))
          w.next_tasks i;
  }

  same_namespace :
      (target : Option String) (ns : String) → or_namespace target ns ≡ in_target target ns
  same_namespace none ns = refl
  same_namespace (some given) ns = refl

  same_pending :
      (target : Option String) (own beside : List CheckpointWrite)
      → if_empty (map (rewrite_write_namespace target) own) beside
        ≡ (if is_empty own then beside else map (moved_write target) own)
  same_pending target [] beside = refl
  same_pending target (w ∷ ws) beside =
      map_same (rewrite_write_namespace target) (moved_write target) (same_write target) (w ∷ ws)

  pub copied-moved :
      (o : CheckpointCopyThreadOptions) (t : CheckpointTuple) → (copied o t).checkpoint ≡ moved o t
  unfolding copied rewrite_checkpoint_for_copy
  copied-moved o t =
      let target = o.target_checkpoint_namespace in
      λ i. record (moved o t) {
        checkpoint_namespace = same_namespace target t.checkpoint.checkpoint_namespace i;
        next_tasks =
            map_same (rewrite_task_namespace target) (moved_task target) (same_task target)
              t.checkpoint.next_tasks i;
        writes =
            map_same (rewrite_write_namespace target) (moved_write target) (same_write target)
              t.checkpoint.writes i;
        pending_writes = same_pending target t.checkpoint.pending_writes t.pending_writes i;
      }
