-- ===== src/Checkpoint/StorageSaver/Removed.antt =====
-- What `StorageSaver` removes from a memory storage.
use langgraph_cpp.Prelude.{
  ℕ, ◌<◌, String, ◌≡◌, sym, ap, ◌∙◌, Bool, false, none, List, [], ◌++◌, ok, append_assoc, length,
}
use langgraph_cpp.Prelude
use mathlib.Core.List.{map-append}
use langgraph_cpp.Prelude.Map.{Map}
use langgraph_cpp.Json.{JsonLib, Json}
use langgraph_cpp.Storage.{StorageKey, StorageItem, storage_key, validate_storage_list_options}
use langgraph_cpp.Storage.Memory
use langgraph_cpp.Storage.Memory.{MemoryStorage}
use langgraph_cpp.Storage.Pages.{each_page}
use langgraph_cpp.Storage.Memory.Items.{IsValid}
use langgraph_cpp.Storage.Memory.Behind.{wanted}
use langgraph_cpp.Storage.Memory.Listing.{each_page-wanted}
use langgraph_cpp.Storage.Memory.Erased.{keys_of}
use langgraph_cpp.Checkpoint.StorageSaver.{
  StorageSaver, StorageCalls, each_item, page_options, flow_of_loop,
}
use langgraph_cpp.Checkpoint.StorageSaver.Maintain.{add_keys}
use langgraph_cpp.Checkpoint.StorageSaver.Memory.{memory_calls}
use langgraph_cpp.Run.Flow.{proceeds}

add_keys_append :
    (keys : List StorageKey) (xs ys : List StorageItem)
    → add_keys keys (xs ++ ys) ≡ Prelude.◌>>=◌ (add_keys keys xs) (λ b. add_keys b ys)
add_keys_append keys xs ys =
    ap (λ zs. ok (keys ++ zs)) (map-append (λ i. i.key) xs ys)
    ∙ ap ok (sym (append_assoc keys (keys_of xs) (keys_of ys)))

abbrev with_items : MemoryStorage → Map StorageKey StorageItem → MemoryStorage
with_items s items = record s { items = items }

module _ ⦃J : JsonLib⦄ (saver : StorageSaver MemoryStorage) (clock : StorageKey → ℕ)
    (equal : Json → Json → Bool) (in_memory : saver.storage ≡ memory_calls clock) where
  listed :
      (prefix : String) (s : MemoryStorage)
      → IsValid s
      → s.closed ≡ false
      → validate_storage_list_options (page_options saver prefix) s.limits ≡ ok tt
      → length s.items < saver.rounds
      → each_item saver prefix add_keys [] s
        ≡ (s, proceeds (keys_of (wanted (page_options saver prefix) none s.items)))
  unfolding each_item
  listed prefix s v opened valid fuel =
      ap
        (λ (calls : StorageCalls MemoryStorage). (
          s,
          flow_of_loop (
              each_page (λ c. calls.list (record (page_options saver prefix) { cursor = c }) s)
                add_keys saver.rounds "" []),
        ))
        in_memory
      ∙ ap (λ r. (s, flow_of_loop r))
          (each_page-wanted (page_options saver prefix) s add_keys add_keys_append saver.rounds [] v
            opened valid fuel)
