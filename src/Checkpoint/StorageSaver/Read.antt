-- ===== src/Checkpoint/StorageSaver/Read.antt =====
-- What `StorageSaver` reads: checkpoints, their writes, and listings.
use langgraph_cpp.Prelude.{
  String, Bool, true, Option, none, some, List, [], ◌∷◌, ◌++◌, Result, ok, ◌==◌, text_key, nat_key,
  if◌then◌else◌, is_empty, map, stable_sort, has_value,
}
use langgraph_cpp.Prelude
use langgraph_cpp.Prelude.Map.{Map, lookup, insert}
use langgraph_cpp.Json.{JsonLib, Json, json_object}
use langgraph_cpp.Storage.{StorageItem}
use langgraph_cpp.Checkpoint.Types.{
  Checkpoint, CheckpointWrite, CheckpointTuple, CheckpointQuery, validate_checkpoint_query, key_of,
}
use langgraph_cpp.Checkpoint.Keys.{
  key_for, key_prefix_for, latest_pointer_key_for, write_key_prefix_for,
}
use langgraph_cpp.Checkpoint.Payload.{
  JsonText, CheckpointCodec, payload_from_storage_value, is_checkpoint_payload,
}
use langgraph_cpp.Checkpoint.Listing.{
  CheckpointListOptions, oldest_first, validate_list_options, is_older, apply_list_options,
}
use langgraph_cpp.Checkpoint.Saver.{write_comes_before}
use langgraph_cpp.Checkpoint.StorageSaver.{StorageSaver, Call, need, look, check_options, each_item}
use langgraph_cpp.Run.Flow.{pure, ◌>>=◌, ◌>>◌}

-- One item after another.
unfoldable pub fold_items :
    {A : Type 0} → (A → StorageItem → Result A) → A → List StorageItem → Result A
fold_items step acc [] = ok acc
fold_items step acc (x ∷ xs) = Prelude.◌>>=◌ (step acc x) (λ next. fold_items step next xs)

module _ ⦃J : JsonLib⦄ where
  abbrev is_in : Option String → Checkpoint → Bool
  is_in none c = true
  is_in (some ns) c = c.checkpoint_namespace == ns

  abbrev kept : Option String → List Checkpoint → Checkpoint → List Checkpoint
  kept ns cs c = if is_in ns c then cs ++ c ∷ [] else cs

  module _ (texts : JsonText) (codec : CheckpointCodec) where
    unfoldable pub take_write : List CheckpointWrite → StorageItem → Result (List CheckpointWrite)
    take_write ws item =
        Prelude.◌>>=◌ (payload_from_storage_value texts item.value)
          (λ payload. Prelude.◌>>=◌ (codec.decode_write payload) (λ w. ok (ws ++ w ∷ [])))

    -- Items that are no checkpoints, and checkpoints of other namespaces, are passed over.
    unfoldable pub take_checkpoint :
        Option String → List Checkpoint → StorageItem → Result (List Checkpoint)
    take_checkpoint ns cs item =
        Prelude.◌>>=◌ (payload_from_storage_value texts item.value) (λ payload.
          if is_checkpoint_payload payload.content_type
          then Prelude.◌>>=◌ (codec.decode payload) (λ c. ok (kept ns cs c))
          else ok cs)

    unfoldable pub checkpoint_of : StorageItem → Result Checkpoint
    checkpoint_of item = Prelude.◌>>=◌ (payload_from_storage_value texts item.value) codec.decode

  module _ {σ : Type 0} (saver : StorageSaver σ) (equal : Json → Json → Bool) where
    unfoldable pub read_writes : String → String → String → Call σ (List CheckpointWrite)
    read_writes thread ns id = do
      prefix ← need (write_key_prefix_for thread ns id)
      ws ← each_item saver prefix (fold_items (take_write saver.texts saver.codec)) []
      pure (stable_sort write_comes_before ws)

    -- `emplace`: the first writes of a key stay.
    abbrev emplaced :
        Checkpoint
        → List CheckpointWrite
        → Map String (List CheckpointWrite)
        → Map String (List CheckpointWrite)
    emplaced c ws found =
        if is_empty ws
        then found
        else if has_value (lookup (key_of c) found)
        then found
        else insert (key_of c) ws found

    unfoldable pub collect_writes :
        List Checkpoint
        → Map String (List CheckpointWrite)
        → Call σ (Map String (List CheckpointWrite))
    collect_writes [] found = pure found
    collect_writes (c ∷ cs) found = do
      ws ← read_writes c.thread_id c.checkpoint_namespace c.checkpoint_id
      collect_writes cs (emplaced c ws found)

    abbrev or_root : Option String → String
    or_root none = ""
    or_root (some ns) = ns

    unfoldable pub list : CheckpointListOptions → Call σ (List CheckpointTuple)
    list o = do
      check_options saver
      need (validate_list_options o)
      prefix ← need (key_prefix_for o.thread_id (or_root o.checkpoint_namespace))
      cs ←
          each_item saver prefix
            (fold_items (take_checkpoint saver.texts saver.codec o.checkpoint_namespace)) []
      found ← collect_writes cs []
      pure (apply_list_options equal cs found o)

    abbrev pub all_of : String → Option String → CheckpointListOptions
    all_of thread ns = record {
      thread_id = thread;
      checkpoint_namespace = ns;
      checkpoint_id = none;
      before_checkpoint_id = none;
      limit = none;
      metadata_filter = json_object [];
      order = oldest_first;
    }

    unfoldable pub list_checkpoints : String → String → Call σ (List Checkpoint)
    list_checkpoints thread ns = do
      records ← list (all_of thread (some ns))
      pure (map (λ t. t.checkpoint) records)

    abbrev pub last_of : List Checkpoint → Option Checkpoint
    last_of [] = none
    last_of (c ∷ []) = some c
    last_of (c ∷ d ∷ cs) = last_of (d ∷ cs)

    unfoldable pub get_latest_by_scan : String → String → Call σ (Option Checkpoint)
    get_latest_by_scan thread ns = do cs ← list_checkpoints thread ns; pure (last_of cs)

    abbrev pub decoded : Option StorageItem → Call σ (Option Checkpoint)
    decoded none = pure none
    decoded (some item) = do c ← need (checkpoint_of saver.texts saver.codec item); pure (some c)

    -- The checkpoint as it was stored.
    unfoldable pub fetch : String → String → String → Call σ (Option Checkpoint)
    fetch thread ns id = do
      check_options saver
      key ← need (key_for saver.scope thread ns id)
      item ← look (saver.storage.get key)
      decoded item

    abbrev with_writes : Checkpoint → List CheckpointWrite → Checkpoint
    with_writes c ws = record c {
      pending_writes = if is_empty c.pending_writes then ws else c.pending_writes;
    }

    abbrev filled : String → String → String → Option Checkpoint → Call σ (Option Checkpoint)
    filled thread ns id none = pure none
    filled thread ns id (some c) = do ws ← read_writes thread ns id; pure (some (with_writes c ws))

    unfoldable pub get_checkpoint : String → String → String → Call σ (Option Checkpoint)
    get_checkpoint thread ns id = do c ← fetch thread ns id; filled thread ns id c

    abbrev newer : Checkpoint → Option Checkpoint → Checkpoint
    newer c none = c
    newer c (some scanned) = if is_older c scanned then scanned else c

    abbrev or_scanned : String → String → Option Checkpoint → Call σ (Option Checkpoint)
    or_scanned thread ns none = get_latest_by_scan thread ns
    or_scanned thread ns (some c) = do
      scanned ← get_latest_by_scan thread ns
      pure (some (newer c scanned))

    abbrev pointed_at : String → String → Option StorageItem → Call σ (Option Checkpoint)
    pointed_at thread ns none = get_latest_by_scan thread ns
    pointed_at thread ns (some pointer) = do
      c ← get_checkpoint thread ns pointer.value
      or_scanned thread ns c

    unfoldable pub get_latest_checkpoint : String → String → Call σ (Option Checkpoint)
    get_latest_checkpoint thread ns = do
      check_options saver
      key ← need (latest_pointer_key_for saver.scope thread ns)
      pointer ← look (saver.storage.get key)
      pointed_at thread ns pointer

    abbrev checkpoint_asked : CheckpointQuery → Call σ (Option Checkpoint)
    checkpoint_asked q = elim q.checkpoint_id [
      | some id ↦ get_checkpoint q.thread_id q.checkpoint_namespace id
      | none ↦ get_latest_checkpoint q.thread_id q.checkpoint_namespace
    ]

    abbrev tuple_from : Option Checkpoint → Call σ (Option CheckpointTuple)
    tuple_from none = pure none
    tuple_from (some c) = do
      ws ← read_writes c.thread_id c.checkpoint_namespace c.checkpoint_id
      pure (
          some (record {
            checkpoint = c;
            pending_writes = if is_empty ws then c.pending_writes else ws;
          }))

    unfoldable pub get_tuple : CheckpointQuery → Call σ (Option CheckpointTuple)
    get_tuple q = do need (validate_checkpoint_query q); c ← checkpoint_asked q; tuple_from c

    abbrev checkpoint_if : Option CheckpointTuple → Option Checkpoint
    checkpoint_if none = none
    checkpoint_if (some t) = some t.checkpoint

    unfoldable pub get : CheckpointQuery → Call σ (Option Checkpoint)
    get q = do t ← get_tuple q; pure (checkpoint_if t)
