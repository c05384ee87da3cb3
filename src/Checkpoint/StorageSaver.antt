-- ===== src/Checkpoint/StorageSaver.antt =====
-- `StorageSaver` of src/langgraph/checkpoint/storage_saver.cpp, over any storage. A loop over pages
-- runs on fuel.
pub mod Read
pub mod Maintain
pub mod Memory
pub mod Fetch
pub mod Agree
pub mod Taken
pub mod Removed
use langgraph_cpp.Prelude.{
  ℕ, zero, suc, ◌+◌, String, Bool, true, false, Option, none, some, List, [], ◌∷◌, Result, ok, err,
  Status, fail, fail_if, invalid_argument, not, ◌==◌, text_key, nat_key, if◌then◌else◌,
}
use langgraph_cpp.Json.{JsonLib}
use langgraph_cpp.Storage.{
  StorageKey, StorageItem, StoragePutOptions, insert_only, upsert, StorageListOptions,
  StorageListResult,
}
use langgraph_cpp.Storage.Pages.{each_page}
use langgraph_cpp.Checkpoint.Types.{
  Checkpoint, CheckpointWrite, CheckpointWriteSet, validate_checkpoint_for_store,
  normalize_write_set,
}
use langgraph_cpp.Checkpoint.Keys.{key_for, latest_pointer_key_for, write_key_for}
use langgraph_cpp.Checkpoint.Payload.{JsonText, CheckpointCodec, storage_value_from_payload}
use langgraph_cpp.Run.Flow.{Flow, proceeds, stops, Act, pure, leave, attempt, ◌>>=◌, ◌>>◌}

-- `IStorage`, as far as the saver calls it.
pub record StorageCalls (σ : Type 0) : Type 0 where
  pub put : StorageKey → String → StoragePutOptions → σ → σ × Result (Unit {0})
  pub get : StorageKey → σ → Result (Option StorageItem)
  pub list : StorageListOptions → σ → Result StorageListResult
  pub remove : StorageKey → σ → σ × Result (Unit {0})

-- A call of the saver: it fails with a status, or stops where a loop's fuel runs out.
abbrev pub Call : Type 0 → Type 0 → Type 0
Call σ A = Act σ (Option Status) A

abbrev pub flow_of : {A : Type 0} → Result A → Flow (Option Status) A
flow_of (ok a) = proceeds a
flow_of (err e) = stops (some e)

abbrev pub flow_of_loop : {A : Type 0} → Option (Result A) → Flow (Option Status) A
flow_of_loop none = stops none
flow_of_loop (some res) = flow_of res

module _ {σ : Type 0} where
  -- `if (!result.isOk()) return result.status();`
  abbrev pub need : {A : Type 0} → Result A → Call σ A
  need r = attempt r (λ e. leave (some e))

  abbrev answered : {A : Type 0} → σ × Result A → σ × Flow (Option Status) A
  answered (s, res) = (s, flow_of res)

  -- A call of the storage that changes it, and one that reads it.
  unfoldable pub change : {A : Type 0} → (σ → σ × Result A) → Call σ A
  change f s = answered (f s)

  unfoldable pub look : {A : Type 0} → (σ → Result A) → Call σ A
  look f s = (s, flow_of (f s))

module _ ⦃J : JsonLib⦄ where
  pub record StorageSaver (σ : Type 0) : Type 0 where
    pub storage : StorageCalls σ
    pub has_storage : Bool
    pub codec : CheckpointCodec
    pub has_codec : Bool
    pub texts : JsonText
    pub scope : String
    pub list_page_size : ℕ
    -- The rounds of each loop over pages.
    pub rounds : ℕ

  module _ {σ : Type 0} (saver : StorageSaver σ) where
    -- `validateStorageSaverOptions`
    unfoldable pub check_options : Call σ (Unit {0})
    check_options = do
      need (
          fail_if (not saver.has_storage) invalid_argument
            "storage checkpointer storage cannot be null")
      need (
          fail_if (not saver.has_codec) invalid_argument
            "storage checkpointer codec cannot be null")
      need (
          fail_if (saver.scope == "") invalid_argument "storage checkpointer scope cannot be empty")
      need (
          fail_if (saver.list_page_size == 0) invalid_argument
            "storage checkpointer list page size must be greater than zero")

    abbrev pub page_options : String → StorageListOptions
    page_options prefix = record {
      scope = saver.scope;
      key_prefix = prefix;
      limit = saver.list_page_size;
      cursor = "";
    }

    -- `for (;;) { page = storage_->list(…); … }`
    unfoldable pub each_item :
        {A : Type 0} → String → (A → List StorageItem → Result A) → A → Call σ A
    each_item prefix body acc s = (
      s,
      flow_of_loop (
          each_page (λ c. saver.storage.list (record (page_options prefix) { cursor = c }) s) body
            saver.rounds "" acc),
    )

    unfoldable pub put_pointer : String → String → String → Call σ (Unit {0})
    put_pointer thread ns id = do
      key ← need (latest_pointer_key_for saver.scope thread ns)
      change (saver.storage.put key id (record { mode = upsert; expected_version = none }))

    unfoldable pub put : Checkpoint → Call σ (Unit {0})
    put c = do
      check_options
      need (validate_checkpoint_for_store c)
      key ← need (key_for saver.scope c.thread_id c.checkpoint_namespace c.checkpoint_id)
      payload ← need (saver.codec.encode c)
      value ← need (storage_value_from_payload saver.texts payload)
      change (saver.storage.put key value (record { mode = insert_only; expected_version = none }))
      put_pointer c.thread_id c.checkpoint_namespace c.checkpoint_id

    unfoldable pub put_each : CheckpointWriteSet → ℕ → List CheckpointWrite → Call σ (Unit {0})
    put_each set i [] = pure tt
    put_each set i (w ∷ ws) = do
      key ← need (write_key_for saver.scope set w i)
      payload ← need (saver.codec.encode_write w)
      value ← need (storage_value_from_payload saver.texts payload)
      change (saver.storage.put key value (record { mode = upsert; expected_version = none }))
      put_each set (suc i) ws

    unfoldable pub put_writes : CheckpointWriteSet → Call σ (Unit {0})
    put_writes set = do
      check_options
      ws ← need (normalize_write_set set)
      put_each (record set { writes = ws }) 0 ws
