-- ===== src/Tests/Storages.antt =====
-- A memory storage with two items.
use langgraph_cpp.Prelude.{
  ◌≡◌, refl, ap, false, none, some, List, [], ◌++◌, append_assoc, sym, Result, ok, err, arith,
}
use langgraph_cpp.Storage.{
  StorageKey, StorageItem, StorageListOptions, storage_key, insert_only, storage_key_from_cursor,
  storage_cursor_from_key,
}
use langgraph_cpp.Storage.Cursor.{storage_key_from_cursor-of_key}
use langgraph_cpp.Storage.Pages.{each_page}
use langgraph_cpp.Storage.Memory.{MemoryStorage, put, new_storage}
use langgraph_cpp.Storage.Memory.Items.{IsValid, put-IsValid}
use langgraph_cpp.Storage.Memory.Behind.{wanted}
use langgraph_cpp.Storage.Memory.Listing.{read_page, each_page-wanted}
use langgraph_cpp.Tests.PlainSaver.{sizes}

abbrev first_key : StorageKey
first_key = record { scope = "s"; key = "a" }

abbrev second_key : StorageKey
second_key = record { scope = "s"; key = "b" }

storage_key_from_cursor-of_key_example :
    storage_key_from_cursor (storage_cursor_from_key first_key) sizes ≡ ok (some first_key)
unfolding langgraph_cpp.Storage.validate_storage_key langgraph_cpp.Storage.validate_storage_name
    langgraph_cpp.Storage.valid_storage_name
storage_key_from_cursor-of_key_example =
    storage_key_from_cursor-of_key first_key sizes refl (omega arith)

abbrev kept_or_empty : Result MemoryStorage → MemoryStorage
kept_or_empty (ok s) = s
kept_or_empty (err e) = record { items = []; limits = sizes; closed = false }

abbrev with_first : MemoryStorage
with_first = kept_or_empty (
    put first_key "x" (record { mode = insert_only; expected_version = none }) 5
      (new_storage sizes))

abbrev with_both : MemoryStorage
with_both =
    kept_or_empty
      (put second_key "y" (record { mode = insert_only; expected_version = none }) 6 with_first)

first_put :
    put first_key "x" (record { mode = insert_only; expected_version = none }) 5 (new_storage sizes)
    ≡ ok with_first
unfolding put langgraph_cpp.Storage.validate_storage_key langgraph_cpp.Storage.validate_storage_name
    new_storage langgraph_cpp.Storage.valid_storage_name
    langgraph_cpp.Storage.validate_storage_put_options langgraph_cpp.Storage.validate_storage_value
    langgraph_cpp.Storage.Memory.ensure_open langgraph_cpp.Prelude.Map.lookup
first_put = refl

second_put :
    put second_key "y" (record { mode = insert_only; expected_version = none }) 6 with_first
    ≡ ok with_both
unfolding put langgraph_cpp.Storage.validate_storage_key langgraph_cpp.Storage.validate_storage_name
    new_storage langgraph_cpp.Storage.valid_storage_name
    langgraph_cpp.Storage.validate_storage_put_options langgraph_cpp.Storage.validate_storage_value
    langgraph_cpp.Storage.Memory.ensure_open langgraph_cpp.Prelude.Map.lookup
    langgraph_cpp.Prelude.Map.insert
second_put = refl

new-IsValid : IsValid (new_storage sizes)
unfolding new_storage
new-IsValid = (tt, tt)

pub both-IsValid : IsValid with_both
both-IsValid =
    put-IsValid second_key "y" (record { mode = insert_only; expected_version = none }) 6 with_first
      with_both (omega arith) second_put
      (put-IsValid first_key "x" (record { mode = insert_only; expected_version = none }) 5
        (new_storage sizes) with_first (omega arith) first_put new-IsValid)

abbrev of_scope : StorageListOptions
of_scope = record { scope = "s"; key_prefix = ""; limit = 1; cursor = "" }

abbrev gather : List StorageItem → List StorageItem → Result (List StorageItem)
gather xs ys = ok (xs ++ ys)

gather_append : (xs ys zs : List StorageItem) → gather xs (ys ++ zs) ≡ gather (xs ++ ys) zs
gather_append xs ys zs = ap ok (sym (append_assoc xs ys zs))

each_page-wanted_example :
    each_page (read_page of_scope with_both gather gather_append) gather 3 "" []
    ≡ some (gather [] (wanted of_scope none with_both.items))
unfolding put langgraph_cpp.Storage.validate_storage_key langgraph_cpp.Storage.validate_storage_name
    new_storage langgraph_cpp.Storage.valid_storage_name
    langgraph_cpp.Storage.validate_storage_put_options langgraph_cpp.Storage.validate_storage_value
    langgraph_cpp.Storage.Memory.ensure_open langgraph_cpp.Prelude.Map.lookup
    langgraph_cpp.Prelude.Map.insert langgraph_cpp.Storage.validate_storage_list_options
each_page-wanted_example =
    each_page-wanted of_scope with_both gather gather_append 3 [] both-IsValid refl refl
      (omega arith)
