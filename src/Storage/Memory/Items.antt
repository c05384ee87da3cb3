-- ===== src/Storage/Memory/Items.antt =====
-- The keys of a memory storage.
use langgraph_cpp.Prelude.{
  ℕ, ◌^◌, ◌<◌, String, ◌≡◌, refl, ok, [], ◌∷◌, subst, arith, Bool, Bool-cases, some, inl, inr,
  Ordering-cases, ◌==◌, if◌then◌else◌, text_key,
}
use Prim.Native.String.{len}
use langgraph_cpp.Prelude.Map.{
  Map, lookup, insert, erase, IsSorted, IsAbove, insert-IsSorted, lookup-insert,
}
use langgraph_cpp.Storage.{
  StorageKey, StorageItem, StorageLimits, StoragePutOptions, storage_key, validate_storage_key,
}
use langgraph_cpp.Storage.Memory.{
  MemoryStorage, get, ensure_open, put, remove, stored_item, outside_scope, clear_scope,
}

-- A valid key, whose scope has fewer bytes than 2^64.
abbrev pub IsName : StorageLimits → StorageKey → Type 0
IsName limits k = (validate_storage_key k limits ≡ ok tt) × (len k.scope < 2 ^ 64)

-- Every item stands under its own key, a valid one.
abbrev pub HasNames : StorageLimits → Map StorageKey StorageItem → Type 0
HasNames limits [] = Unit
HasNames limits ((k, item) ∷ m) = (item.key ≡ k) × IsName limits k × HasNames limits m

abbrev pub IsValid : MemoryStorage → Type 0
IsValid s = IsSorted s.items × HasNames s.limits s.items

HasNames-insert :
    (limits : StorageLimits) (k : StorageKey) (item : StorageItem) (m : Map StorageKey StorageItem)
    → item.key ≡ k
    → IsName limits k
    → HasNames limits m
    → HasNames limits (insert k item m)
unfolding insert
HasNames-insert limits k item [] e n h = (e, n, tt)
HasNames-insert limits k item ((j, other) ∷ m) e n h = elim (Ordering-cases (storage_key.cmp k j)) [
  | inl below ↦ rw (below, insert) (e, n, h)
  | inr (inl same) ↦ rw (same, insert) (e, n, h.2)
  | inr (inr above) ↦ rw (above, insert) (h.0, h.1, HasNames-insert limits k item m e n h.2)
]

-- A part of a map in order, with the same entries left out everywhere.
module _ (dropped : StorageKey → Bool) where
  abbrev left : Map StorageKey StorageItem → Map StorageKey StorageItem
  left [] = []
  left ((k, item) ∷ m) = if dropped k then left m else (k, item) ∷ left m

  left-IsAbove :
      (j : StorageKey) (m : Map StorageKey StorageItem) → IsAbove j m → IsAbove j (left m)
  left-IsAbove j [] a = tt
  left-IsAbove j ((k, item) ∷ m) a = elim (Bool-cases (dropped k)) [
    | inl gone ↦ rw (gone) (left-IsAbove j m a.1)
    | inr stays ↦ rw (stays) (a.0, left-IsAbove j m a.1)
  ]

  left-IsSorted : (m : Map StorageKey StorageItem) → IsSorted m → IsSorted (left m)
  left-IsSorted [] s = tt
  left-IsSorted ((k, item) ∷ m) s = elim (Bool-cases (dropped k)) [
    | inl gone ↦ rw (gone) (left-IsSorted m s.1)
    | inr stays ↦ rw (stays) (left-IsAbove k m s.0, left-IsSorted m s.1)
  ]

  left-HasNames :
      (limits : StorageLimits) (m : Map StorageKey StorageItem)
      → HasNames limits m
      → HasNames limits (left m)
  left-HasNames limits [] h = tt
  left-HasNames limits ((k, item) ∷ m) h = elim (Bool-cases (dropped k)) [
    | inl gone ↦ rw (gone) (left-HasNames limits m h.2)
    | inr stays ↦ rw (stays) (h.0, h.1, left-HasNames limits m h.2)
  ]

erase-eq-left : (k : StorageKey) (m : Map StorageKey StorageItem) → erase k m ≡ left (λ j. j == k) m
unfolding erase
erase-eq-left k [] = refl
erase-eq-left k ((j, item) ∷ m) = ground (arith, erase-eq-left k m)

outside_scope-eq-left :
    (scope : String) (m : Map StorageKey StorageItem)
    → outside_scope scope m ≡ left (λ k. k.scope == scope) m
unfolding outside_scope
outside_scope-eq-left scope [] = refl
outside_scope-eq-left scope ((k, item) ∷ m) = ground (arith, outside_scope-eq-left scope m)

-- What is put is found under its key, and the other keys keep what they had.
pub lookup-put :
    (k j : StorageKey) (value : String) (o : StoragePutOptions) (now : ℕ) (s t : MemoryStorage)
    → put k value o now s ≡ ok t
    → (lookup j t.items
        ≡ (if k == j then some (stored_item k value now (lookup k s.items)) else lookup j s.items))
      × (t.limits ≡ s.limits)
      × (t.closed ≡ s.closed)
unfolding put
lookup-put k j value o now s t e =
    ground (arith, lookup-insert k j (stored_item k value now (lookup k s.items)) s.items)

put-items :
    (k : StorageKey) (value : String) (o : StoragePutOptions) (now : ℕ) (s t : MemoryStorage)
    → put k value o now s ≡ ok t
    → (validate_storage_key k s.limits ≡ ok tt)
      × (record s { items = insert k (stored_item k value now (lookup k s.items)) s.items } ≡ t)
unfolding put
put-items k value o now s t e = ground arith

-- A storage stays valid, whatever is put.
pub put-IsValid :
    (k : StorageKey) (value : String) (o : StoragePutOptions) (now : ℕ) (s t : MemoryStorage)
    → len k.scope < 2 ^ 64
    → put k value o now s ≡ ok t
    → IsValid s
    → IsValid t
unfolding stored_item
put-IsValid k value o now s t small e v =
    let item = stored_item k value now (lookup k s.items) in
    let (valid, made) = put-items k value o now s t e in
    subst IsValid made (
      insert-IsSorted k item s.items v.0,
      HasNames-insert s.limits k item s.items refl (valid, small) v.1,
    )

remove-items :
    (k : StorageKey) (s t : MemoryStorage)
    → remove k s ≡ ok t
    → record s { items = erase k s.items } ≡ t
unfolding remove
remove-items k s t e = ground arith

pub remove-IsValid :
    (k : StorageKey) (s t : MemoryStorage) → remove k s ≡ ok t → IsValid s → IsValid t
remove-IsValid k s t e v = subst IsValid (remove-items k s t e) (
    rw (erase-eq-left k s.items)
      (left-IsSorted (λ j. j == k) s.items v.0, left-HasNames (λ j. j == k) s.limits s.items v.1))

clear_scope-items :
    (scope : String) (s t : MemoryStorage)
    → clear_scope scope s ≡ ok t
    → record s { items = outside_scope scope s.items } ≡ t
unfolding clear_scope
clear_scope-items scope s t e = ground arith

pub clear_scope-IsValid :
    (scope : String) (s t : MemoryStorage) → clear_scope scope s ≡ ok t → IsValid s → IsValid t
clear_scope-IsValid scope s t e v = subst IsValid (clear_scope-items scope s t e) (
    rw (outside_scope-eq-left scope s.items) (
      left-IsSorted (λ k. k.scope == scope) s.items v.0,
      left-HasNames (λ k. k.scope == scope) s.limits s.items v.1,
    ))

-- Reading after a put: the item that was put, or what was there.
pub get-put :
    (k j : StorageKey) (value : String) (o : StoragePutOptions) (now : ℕ) (s t : MemoryStorage)
    → put k value o now s ≡ ok t
    → get j t ≡ (if k == j then ok (some (stored_item k value now (lookup k s.items))) else get j s)
unfolding get put ensure_open
get-put k j value o now s t e = ground (
  arith,
  lookup-insert k j (stored_item k value now (lookup k s.items)) s.items,
  storage_key.cmp_iff k j,
)
