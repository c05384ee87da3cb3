-- ===== src/Storage.antt =====
-- src/foundation/storage/i_storage.hpp: keys, items and options of a storage, their checks, and the
-- cursors by which a listing goes on. A moment is a number of ticks.
pub mod Cursor
pub mod Pages
pub mod Memory
use Prim.Native.Char.{code}
use Prim.Native.String.{len, slice}
use langgraph_cpp.Prelude.{
  ℕ, ◌+◌, String, ◌≡◌, ◌↔◌, Bool, true, false, not, ◌&&◌, ◌||◌, Option, none, some, List, [], ◌∷◌,
  Result, ok, fail_if, fail, or_fail, ◌>>=◌, ◌>>◌, invalid_argument, resource_exhausted, ◌==◌,
  text_key, nat_key, if◌then◌else◌, ltb, leb, labelled, to_string, from_chars, Key, Ordering, arith,
  has_value,
}
use text.Mathlib.Text.{starts_with, is_char_boundary, find?}

pub record StorageKey : Type 0 where
  pub scope : String
  pub key : String

-- `MapKey`, a pair of texts: the scopes decide, then the keys.
abbrev pub compare_keys : StorageKey → StorageKey → Ordering
compare_keys a b = elim (text_key.cmp a.scope b.scope) [
  | Ordering.eq ↦ text_key.cmp a.key b.key
  | Ordering.lt ↦ Ordering.lt
  | Ordering.gt ↦ Ordering.gt
]

pub compare_keys_iff : (a b : StorageKey) → (compare_keys a b ≡ Ordering.eq) ↔ (a ≡ b)
compare_keys_iff a b =
    ground (arith, text_key.cmp_iff a.scope b.scope, text_key.cmp_iff a.key b.key)

pub compare_keys_trans :
    (a b c : StorageKey)
    → compare_keys a b ≡ Ordering.lt
    → compare_keys b c ≡ Ordering.lt
    → compare_keys a c ≡ Ordering.lt
compare_keys_trans a b c p q = ground (
  arith,
  text_key.cmp_iff a.scope b.scope,
  text_key.cmp_iff b.scope c.scope,
  text_key.cmp_iff a.scope c.scope,
  text_key.cmp_trans a.scope b.scope c.scope,
  text_key.cmp_trans a.key b.key c.key,
)

pub compare_keys_flip :
    (a b : StorageKey) → compare_keys a b ≡ Ordering.gt → compare_keys b a ≡ Ordering.lt
compare_keys_flip a b p = ground (
  arith,
  text_key.cmp_iff a.scope b.scope,
  text_key.cmp_iff b.scope a.scope,
  text_key.cmp_flip a.scope b.scope,
  text_key.cmp_flip a.key b.key,
)

instance abbrev pub storage_key : Key StorageKey
storage_key = record {
  cmp = compare_keys;
  cmp_iff = compare_keys_iff;
  cmp_trans = compare_keys_trans;
  cmp_flip = compare_keys_flip;
}

pub data StoragePutMode : Type 0 where
  upsert insert_only replace_only : StoragePutMode

pub record StoragePutOptions : Type 0 where
  pub mode : StoragePutMode
  pub expected_version : Option ℕ

pub record StorageItem : Type 0 where
  pub key : StorageKey
  pub value : String
  pub created_at : ℕ
  pub updated_at : ℕ
  pub version : ℕ

pub record StorageListOptions : Type 0 where
  pub scope : String
  pub key_prefix : String
  pub limit : ℕ
  pub cursor : String

pub record StorageListResult : Type 0 where
  pub items : List StorageItem
  pub next_cursor : String

-- Zero means no limit.
pub record StorageLimits : Type 0 where
  pub max_scope_bytes : ℕ
  pub max_key_bytes : ℕ
  pub max_value_bytes : ℕ
  pub max_list_items : ℕ
  pub max_items : ℕ

abbrev is_between : ℕ → ℕ → ℕ → Bool
is_between low high n = leb low n && leb n high

-- `std::isalnum`, in the C locale, or one of the punctuation marks.
unfoldable pub valid_storage_name_char : ℕ → Bool
valid_storage_name_char c =
    is_between b'0' b'9' c
    || is_between b'A' b'Z' c
    || is_between b'a' b'z' c
    || c == b'_'
    || c == b'-'
    || c == b'.'
    || c == b'/'
    || c == b':'
    || c == b'@'
    || c == b'='

unfoldable pub valid_storage_name : String → Bool
unfolding valid_storage_name_char
valid_storage_name String.[] = true
valid_storage_name (String.◌∷◌ c s) =
    let rest = valid_storage_name s in if valid_storage_name_char (code c) then rest else false

abbrev pub exceeds : ℕ → ℕ → Bool
exceeds limit n = not (limit == 0) && ltb limit n

unfoldable pub validate_storage_name : String → String → ℕ → Result (Unit {0})
validate_storage_name value label max_bytes = do
  fail_if (value == "") invalid_argument (labelled label " cannot be empty")
  fail_if (exceeds max_bytes (len value)) invalid_argument (labelled label " is too long")
  fail_if (not (valid_storage_name value)) invalid_argument
      (labelled label " contains invalid characters")

unfoldable pub validate_storage_key : StorageKey → StorageLimits → Result (Unit {0})
validate_storage_key k limits =
    validate_storage_name k.scope "storage scope" limits.max_scope_bytes
    >> validate_storage_name k.key "storage key" limits.max_key_bytes

unfoldable pub validate_storage_value : String → StorageLimits → Result (Unit {0})
validate_storage_value value limits =
    fail_if (exceeds limits.max_value_bytes (len value)) resource_exhausted
      "storage value is too large"

abbrev unless_empty : String → Result (Unit {0}) → Result (Unit {0})
unless_empty s check = if s == "" then ok tt else check

unfoldable pub validate_storage_list_options :
    StorageListOptions → StorageLimits → Result (Unit {0})
validate_storage_list_options o limits = do
  unless_empty o.scope (validate_storage_name o.scope "storage scope" limits.max_scope_bytes)
  unless_empty o.key_prefix
      (validate_storage_name o.key_prefix "storage key prefix" limits.max_key_bytes)
  fail_if (o.limit == 0) invalid_argument "storage list limit must be greater than zero"
  fail_if (exceeds limits.max_list_items o.limit) resource_exhausted
      "storage list limit is too large"

abbrev is_insert_only : StoragePutMode → Bool
is_insert_only insert_only = true
is_insert_only _ = false

unfoldable pub validate_storage_put_options : StoragePutOptions → Result (Unit {0})
validate_storage_put_options o =
    fail_if (is_insert_only o.mode && has_value o.expected_version) invalid_argument
      "insert-only storage put cannot use expectedVersion"

unfoldable pub storage_key_matches_list_options : StorageKey → StorageListOptions → Bool
storage_key_matches_list_options k o =
    (o.scope == "" || k.scope == o.scope) && (o.key_prefix == "" || starts_with k.key o.key_prefix)

-- The size of the scope, a colon, the scope and the key.
unfoldable pub storage_cursor_from_key : StorageKey → String
storage_cursor_from_key k =
    labelled (to_string (len k.scope)) (labelled ":" (labelled k.scope k.key))

abbrev pub invalid_cursor : String
invalid_cursor = "invalid storage cursor"

-- The scope ends inside a character: its bytes are no name.
abbrev cut_scope : ℕ → StorageLimits → Result (Option StorageKey)
cut_scope size limits =
    if exceeds limits.max_scope_bytes size
    then fail invalid_argument "storage scope is too long"
    else fail invalid_argument "storage scope contains invalid characters"

unfoldable pub split_payload : ℕ → String → StorageLimits → Result (Option StorageKey)
split_payload size payload limits = do
  fail_if (size == 0 || leb (len payload) size) invalid_argument invalid_cursor
  if is_char_boundary payload size
      then (let k : StorageKey = record {
        scope = slice payload 0 size;
        key = slice payload size (len payload);
      } in
          validate_storage_key k limits >> ok (some k))
      else cut_scope size limits

unfoldable pub storage_key_from_cursor : String → StorageLimits → Result (Option StorageKey)
storage_key_from_cursor cursor limits = if cursor == "" then ok none else do
  separator ← or_fail (find? cursor ":") invalid_argument invalid_cursor
  size ← or_fail (from_chars (slice cursor 0 separator)) invalid_argument invalid_cursor
  split_payload size (slice cursor (separator + 1) (len cursor)) limits
