-- ===== src/Tests/Savers.antt =====
-- The saver on a memory storage, with two checkpoints.
use langgraph_cpp.Prelude.{
  map, Status, ℕ, String, Bool, true, false, some, List, [], ◌∷◌, ok, ◌≡◌, refl, text_key, nat_key,
}
use langgraph_cpp.Checkpoint.Types.{Checkpoint}
use langgraph_cpp.Checkpoint.StorageSaver.{StorageSaver, put}
use langgraph_cpp.Storage.Memory.{MemoryStorage}
use langgraph_cpp.Storage.{StorageKey, StorageItem, storage_key}
use langgraph_cpp.Prelude.Map.{lookup}
use langgraph_cpp.Checkpoint.StorageSaver.Taken.{put-Refuses}
use langgraph_cpp.Checkpoint.Keys.{key_for}
use langgraph_cpp.Checkpoint.Keys.Apart.{key_for-injective}
use langgraph_cpp.Run.Flow.{stops}
use langgraph_cpp.Tests.Examples.{Tree, tree_json}
use langgraph_cpp.Tests.PlainSaver.{plain, plain_saver, sizes, clock}

abbrev item : String → String → ℕ → StorageItem
item key value version = record {
  key = record { scope = "checkpoints"; key = key };
  value = value;
  created_at = 7;
  updated_at = 7;
  version = version;
}

abbrev holding : List StorageItem → MemoryStorage
holding items = record { items = map (λ i. (i.key, i)) items; limits = sizes; closed = false }

abbrev after_one : MemoryStorage
after_one = holding (item "74/61" "1a" 1 ∷ item "latest/74" "a" 1 ∷ [])

abbrev after_two : MemoryStorage
after_two = holding (item "74/61" "1a" 1 ∷ item "74/62" "1b" 1 ∷ item "latest/74" "b" 2 ∷ [])

abbrev two : List Checkpoint
two = plain "a" ∷ plain "b" ∷ []

abbrev thread : String
thread = "t"

abbrev ns : String
ns = "n"

abbrev id : String
id = "a"

abbrev any_tree : Tree → Tree → Bool
any_tree x y = true

abbrev key_of_a : StorageKey
key_of_a = record { scope = "checkpoints"; key = "74/61" }

key_for-injective_example : (thread ≡ thread) × (ns ≡ ns) × (id ≡ id)
unfolding langgraph_cpp.Checkpoint.Keys.key_for langgraph_cpp.Checkpoint.Keys.key_prefix_for
    langgraph_cpp.Checkpoint.Hex.hex_encode
key_for-injective_example =
    key_for-injective "checkpoints" thread thread ns ns id id
      (record { scope = "checkpoints"; key = "74/ns/6e/61" }) refl refl

abbrev item_of_a : StorageItem
item_of_a = item "74/61" "1a" 1

a_held : plain_saver.storage.get key_of_a after_one ≡ ok (some item_of_a)
unfolding langgraph_cpp.Storage.Memory.get langgraph_cpp.Storage.validate_storage_key
    langgraph_cpp.Storage.validate_storage_name langgraph_cpp.Storage.valid_storage_name
    langgraph_cpp.Storage.Memory.ensure_open lookup
a_held = refl

a_keyed : key_for "checkpoints" "t" "" "a" ≡ ok key_of_a
unfolding key_for langgraph_cpp.Checkpoint.Keys.key_prefix_for
    langgraph_cpp.Checkpoint.Hex.hex_encode
a_keyed = refl

put-Refuses_example :
    (e : Status) × (put plain_saver (plain "a") after_one ≡ (after_one, stops (some e)))
put-Refuses_example =
    put-Refuses plain_saver clock (plain "a") after_one key_of_a item_of_a refl a_keyed a_held
