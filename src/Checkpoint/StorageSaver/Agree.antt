-- ===== src/Checkpoint/StorageSaver/Agree.antt =====
-- `StorageSaver` on a memory storage beside `InMemorySaver`.
use langgraph_cpp.Prelude.{
  ℕ, String, ◌≡◌, Bool, Option, none, some, List, [], ◌∷◌, Result, ok, Status, text_key, nat_key,
}
use langgraph_cpp.Prelude
use langgraph_cpp.Json.{JsonLib, Json}
use langgraph_cpp.Storage.{StorageKey, StorageItem, StorageLimits, validate_storage_key}
use langgraph_cpp.Storage.Memory
use langgraph_cpp.Storage.Memory.{MemoryStorage}
use langgraph_cpp.Checkpoint.Types.{Checkpoint}
use langgraph_cpp.Checkpoint.Saver
use langgraph_cpp.Checkpoint.Saver.{InMemorySaver}
use langgraph_cpp.Checkpoint.Saver.Refines.{contents}
use langgraph_cpp.Checkpoint.Keys.{key_for}
use langgraph_cpp.Checkpoint.StorageSaver.{StorageSaver, Call, put}
use langgraph_cpp.Checkpoint.StorageSaver.Read.{fetch}
use langgraph_cpp.Checkpoint.StorageSaver.Memory.{memory_calls, SaverInputs, IsReadable}
use langgraph_cpp.Run.Flow.{Flow, proceeds, pure, ◌>>◌}

module _ ⦃J : JsonLib⦄ where
  abbrev pub put_all_in_memory : List Checkpoint → InMemorySaver → Result InMemorySaver
  put_all_in_memory [] m = ok m
  put_all_in_memory (c ∷ cs) m = Prelude.◌>>=◌ (Saver.put c m) (put_all_in_memory cs)

  -- What a codec keeps of a checkpoint, where there is one.
  abbrev pub read_back : (Checkpoint → Checkpoint) → Option Checkpoint → Option Checkpoint
  read_back as_read none = none
  read_back as_read (some c) = some (as_read c)

  module _ (saver : StorageSaver MemoryStorage) where
    -- A client's puts, one after another, on each of the savers.
    unfoldable pub put_all : List Checkpoint → Call MemoryStorage (Unit {0})
    put_all [] = pure tt
    put_all (c ∷ cs) = do put saver c; put_all cs

    abbrev pub AllReadable : List Checkpoint → Type 0
    AllReadable [] = Unit
    AllReadable (c ∷ cs) = IsReadable saver.texts saver.codec c × AllReadable cs

  module _ (saver : StorageSaver MemoryStorage) (clock : StorageKey → ℕ)
      (in_memory : saver.storage ≡ memory_calls clock) (as_read : Checkpoint → Checkpoint)
      (laws : SaverInputs saver.texts saver.codec as_read) (equal : Json → Json → Bool) where
    -- Where the storage answers for a key, the two savers hold the same checkpoints.
    abbrev pub Agree : InMemorySaver → MemoryStorage → Type 0
    Agree m s =
        (thread ns id : String) (key : StorageKey) (o : Option StorageItem)
        → key_for saver.scope thread ns id ≡ ok key
        → saver.storage.get key s ≡ ok o
        → (fetch saver equal thread ns id s).1
          ≡ proceeds (read_back as_read (contents m thread ns id))

    -- The storage answers for every key of a checkpoint that is within its limits.
    abbrev pub Answers : StorageLimits → MemoryStorage → Type 0
    Answers limits s =
        (thread ns id : String) (key : StorageKey)
        → key_for saver.scope thread ns id ≡ ok key
        → validate_storage_key key limits ≡ ok tt
        → (o : Option StorageItem) × (saver.storage.get key s ≡ ok o)

    abbrev answer : Option Checkpoint → Flow (Option Status) (Option Checkpoint)
    answer x = proceeds x
