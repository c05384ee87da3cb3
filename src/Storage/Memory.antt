-- ===== src/Storage/Memory.antt =====
-- `MemoryStorage` of src/foundation/storage/memory_storage.cpp. The lock makes each operation one
-- step; the clock is an argument. An operation that is refused leaves the storage as it is.
pub mod Behind
pub mod Pages
pub mod Listing
pub mod Erased
pub mod Items
use langgraph_cpp.Prelude.{
  ℕ, zero, suc, ◌+◌, ◌%◌, ◌^◌, String, Bool, true, false, not, ◌&&◌, ◌||◌, Option, none, some, [],
  ◌∷◌, Result, ok, fail_if, ◌>>=◌, ◌>>◌, unavailable, already_exists, not_found,
  failed_precondition, resource_exhausted, ◌==◌, text_key, nat_key, if◌then◌else◌, leb, length,
  has_value, Ordering,
}
use langgraph_cpp.Prelude.Map.{Map, lookup, insert, erase}
use langgraph_cpp.Storage.{
  StorageKey, StorageItem, StorageLimits, StoragePutOptions, StoragePutMode, insert_only,
  replace_only, StorageListOptions, StorageListResult, storage_key, validate_storage_key,
  validate_storage_value, validate_storage_put_options, validate_storage_list_options,
  validate_storage_name, storage_key_matches_list_options, storage_cursor_from_key,
  storage_key_from_cursor,
}

pub record MemoryStorage : Type 0 where
  pub items : Map StorageKey StorageItem
  pub limits : StorageLimits
  pub closed : Bool

unfoldable pub new_storage : StorageLimits → MemoryStorage
new_storage limits = record { items = []; limits = limits; closed = false }

unfoldable pub ensure_open : MemoryStorage → Result (Unit {0})
ensure_open s = fail_if s.closed unavailable "memory storage is closed"

-- `insert_only` wants no item of the key, `replace_only` one.
abbrev check_mode : StoragePutMode → Bool → Result (Unit {0})
check_mode insert_only exists = fail_if exists already_exists "storage item already exists"
check_mode replace_only exists = fail_if (not exists) not_found "storage item does not exist"
check_mode _ exists = ok tt

abbrev check_version : Option ℕ → Option StorageItem → Result (Unit {0})
check_version none old = ok tt
check_version (some expected) none = fail_if true not_found "storage item does not exist"
check_version (some expected) (some item) =
    fail_if (not (item.version == expected)) failed_precondition "storage version mismatch"

abbrev check_room : MemoryStorage → Bool → Result (Unit {0})
check_room s exists =
    fail_if
      (not exists && (not (s.limits.max_items == 0) && leb s.limits.max_items (length s.items)))
      resource_exhausted "memory storage item limit exceeded"

abbrev next_version : Option StorageItem → ℕ
next_version none = 1
next_version (some item) = (item.version + 1) % 2 ^ 64

abbrev created : Option StorageItem → ℕ → ℕ
created none now = now
created (some item) now = item.created_at

unfoldable pub stored_item : StorageKey → String → ℕ → Option StorageItem → StorageItem
stored_item k value now old = record {
  key = k;
  value = value;
  created_at = created old now;
  updated_at = now;
  version = next_version old;
}

unfoldable pub put :
    StorageKey → String → StoragePutOptions → ℕ → MemoryStorage → Result MemoryStorage
put k value o now s = do
  validate_storage_key k s.limits
  validate_storage_put_options o
  validate_storage_value value s.limits
  ensure_open s
  let old = lookup k s.items
  check_mode o.mode (has_value old)
  check_version o.expected_version old
  check_room s (has_value old)
  fail_if (has_value old && next_version old == 0) resource_exhausted
      "storage item version exhausted"
  ok (record s { items = insert k (stored_item k value now old) s.items })

unfoldable pub get : StorageKey → MemoryStorage → Result (Option StorageItem)
get k s = do validate_storage_key k s.limits; ensure_open s; ok (lookup k s.items)

-- A cursor stands for the keys up to its own.
abbrev pub is_before : Option StorageKey → StorageKey → Bool
is_before none k = false
is_before (some c) k = elim (storage_key.cmp k c) [ Ordering.gt ↦ false | _ ↦ true ]

abbrev pub is_skipped : StorageListOptions → Option StorageKey → StorageKey → StorageItem → Bool
is_skipped o after k item = is_before after k || not (storage_key_matches_list_options item.key o)

abbrev pub cursor_of : Option StorageKey → String
cursor_of none = ""
cursor_of (some k) = storage_cursor_from_key k

abbrev pub with_item : StorageItem → StorageListResult → StorageListResult
with_item item res = record res { items = item ∷ res.items }

-- The items behind the cursor, with room for `room` of them; `last` is the key of the last item.
unfoldable pub list_items :
    StorageListOptions
    → Option StorageKey
    → ℕ
    → Option StorageKey
    → Map StorageKey StorageItem
    → StorageListResult
list_items o after room last [] = record { items = []; next_cursor = "" }
list_items o after room last ((k, item) ∷ rest) = elim (is_skipped o after k item) [
  | true ↦ list_items o after room last rest
  | false ↦ elim room [
    | zero ↦ record { items = []; next_cursor = cursor_of last }
    | suc left ↦ with_item item (list_items o after left (some item.key) rest)
  ]
]

unfoldable pub list : StorageListOptions → MemoryStorage → Result StorageListResult
list o s = do
  after ← storage_key_from_cursor o.cursor s.limits
  validate_storage_list_options o s.limits
  ensure_open s
  ok (list_items o after o.limit none s.items)

unfoldable pub remove : StorageKey → MemoryStorage → Result MemoryStorage
remove k s = do
  validate_storage_key k s.limits
  ensure_open s
  ok (record s { items = erase k s.items })

unfoldable pub outside_scope : String → Map StorageKey StorageItem → Map StorageKey StorageItem
outside_scope scope [] = []
outside_scope scope ((k, item) ∷ rest) =
    let left = outside_scope scope rest in if k.scope == scope then left else (k, item) ∷ left

unfoldable pub clear_scope : String → MemoryStorage → Result MemoryStorage
clear_scope scope s = do
  validate_storage_name scope "storage scope" s.limits.max_scope_bytes
  ensure_open s
  ok (record s { items = outside_scope scope s.items })

unfoldable pub close : MemoryStorage → MemoryStorage
close s = record s { closed = true }
