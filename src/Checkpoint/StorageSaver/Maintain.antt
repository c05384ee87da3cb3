-- ===== src/Checkpoint/StorageSaver/Maintain.antt =====
-- What `StorageSaver` removes.
use langgraph_cpp.Prelude.{
  ◌+◌, ◌-◌, String, Bool, Option, none, some, List, [], ◌∷◌, ◌++◌, Result, ok, fail_if,
  invalid_argument, ◌||◌, ◌==◌, text_key, if◌then◌else◌, length, take, keep, map, add_to_set,
}
use Prim.Native.String
use text.Mathlib.Text.{starts_with}
use langgraph_cpp.Json.{JsonLib, Json}
use langgraph_cpp.Storage.{StorageKey, StorageItem}
use langgraph_cpp.Checkpoint.Types.{Checkpoint, CheckpointMaintenanceResult}
use langgraph_cpp.Checkpoint.Hex.{hex_encode}
use langgraph_cpp.Checkpoint.Keys.{
  key_for, key_prefix_for, latest_pointer_key_for, write_key_prefix_for,
}
use langgraph_cpp.Checkpoint.Saver.Maintain.{
  CheckpointPruneOptions, CheckpointDeleteForRunsOptions, checkpoint_id_matches_run,
  validate_delete_for_runs_options, no_change,
}
use langgraph_cpp.Checkpoint.StorageSaver.{
  StorageSaver, Call, need, change, check_options, each_item, put_pointer,
}
use langgraph_cpp.Checkpoint.StorageSaver.Read.{list, list_checkpoints, all_of, last_of}
use langgraph_cpp.Run.Flow.{pure, ◌>>=◌, ◌>>◌}

-- The keys of the items, gathered page after page.
abbrev pub add_keys : List StorageKey → List StorageItem → Result (List StorageKey)
add_keys keys items = ok (keys ++ map (λ i. i.key) items)

module _ ⦃J : JsonLib⦄ {σ : Type 0} (saver : StorageSaver σ) (equal : Json → Json → Bool) where
  unfoldable pub remove_each : List StorageKey → Call σ (Unit {0})
  remove_each [] = pure tt
  remove_each (k ∷ ks) = do change (saver.storage.remove k); remove_each ks

  unfoldable pub remove_below : String → Call σ (Unit {0})
  remove_below prefix = do keys ← each_item saver prefix add_keys []; remove_each keys

  unfoldable pub remove_writes : String → String → String → Call σ (Unit {0})
  remove_writes thread ns id = do
    prefix ← need (write_key_prefix_for thread ns id)
    remove_below prefix

  unfoldable pub remove_thread_writes : String → Call σ (Unit {0})
  remove_thread_writes thread = do
    need (fail_if (thread == "") invalid_argument "checkpoint writes thread_id cannot be empty")
    remove_below (String.◌++◌ "writes/" (String.◌++◌ (hex_encode thread) "/"))

  -- The pointer of the root and those of the namespaces.
  abbrev is_pointer : String → StorageKey → Bool
  is_pointer prefix k = k.key == prefix || starts_with k.key (String.◌++◌ prefix "/")

  abbrev add_pointers : String → List StorageKey → List StorageItem → Result (List StorageKey)
  add_pointers prefix keys items = ok (keys ++ keep (is_pointer prefix) (map (λ i. i.key) items))

  unfoldable pub delete_thread : String → Call σ (Unit {0})
  delete_thread thread = do
    check_options saver
    prefix ← need (key_prefix_for thread "")
    remove_below prefix
    let pointers = String.◌++◌ "latest/" (hex_encode thread)
    keys ← each_item saver pointers (add_pointers pointers) []
    remove_each keys
    remove_thread_writes thread

  abbrev pointer_result : List Checkpoint → String → CheckpointMaintenanceResult
  pointer_result cs id = record no_change { remaining = length cs; latest_checkpoint_id = id }

  abbrev point_at_last :
      String → String → List Checkpoint → Option Checkpoint → Call σ CheckpointMaintenanceResult
  point_at_last thread ns cs none = do
    key ← need (latest_pointer_key_for saver.scope thread ns)
    change (saver.storage.remove key)
    pure (pointer_result cs "")
  point_at_last thread ns cs (some c) = do
    put_pointer saver thread ns c.checkpoint_id
    pure (pointer_result cs c.checkpoint_id)

  unfoldable pub repair_latest_pointer : String → String → Call σ CheckpointMaintenanceResult
  repair_latest_pointer thread ns = do
    check_options saver
    cs ← list_checkpoints saver equal thread ns
    point_at_last thread ns cs (last_of saver equal cs)

  unfoldable pub remove_checkpoint : Checkpoint → Call σ (Unit {0})
  remove_checkpoint c = do
    key ← need (key_for saver.scope c.thread_id c.checkpoint_namespace c.checkpoint_id)
    change (saver.storage.remove key)
    remove_writes c.thread_id c.checkpoint_namespace c.checkpoint_id

  unfoldable pub remove_checkpoints : List Checkpoint → Call σ (Unit {0})
  remove_checkpoints [] = pure tt
  remove_checkpoints (c ∷ cs) = do remove_checkpoint c; remove_checkpoints cs

  unfoldable pub prune : String → CheckpointPruneOptions → Call σ CheckpointMaintenanceResult
  prune thread o = do
    check_options saver
    cs ← list_checkpoints saver equal thread o.checkpoint_namespace
    let gone = take (length cs - o.keep_latest) cs
    remove_checkpoints gone
    compacted ← repair_latest_pointer thread o.checkpoint_namespace
    pure (record compacted { removed = length gone })

  abbrev add_counts :
      CheckpointMaintenanceResult → CheckpointMaintenanceResult → CheckpointMaintenanceResult
  add_counts res compacted = record res {
    remaining = res.remaining + compacted.remaining;
    latest_checkpoint_id =
        if compacted.latest_checkpoint_id == ""
        then res.latest_checkpoint_id
        else compacted.latest_checkpoint_id;
  }

  unfoldable pub repair_each :
      String → List String → CheckpointMaintenanceResult → Call σ CheckpointMaintenanceResult
  repair_each thread [] res = pure res
  repair_each thread (ns ∷ nss) res = do
    compacted ← repair_latest_pointer thread ns
    repair_each thread nss (add_counts res compacted)

  -- `std::set`
  unfoldable pub namespaces_of : List Checkpoint → List String
  namespaces_of [] = []
  namespaces_of (c ∷ cs) = add_to_set c.checkpoint_namespace (namespaces_of cs)

  unfoldable pub delete_for_runs :
      CheckpointDeleteForRunsOptions → Call σ CheckpointMaintenanceResult
  delete_for_runs o = do
    check_options saver
    need (validate_delete_for_runs_options o)
    records ← list saver equal (all_of saver equal o.thread_id o.checkpoint_namespace)
    let gone =
        keep (λ c. checkpoint_id_matches_run c.checkpoint_id o.run_ids)
          (map (λ t. t.checkpoint) records)
    remove_checkpoints gone
    repair_each o.thread_id (namespaces_of gone) (record no_change { removed = length gone })
