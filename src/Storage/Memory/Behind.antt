-- ===== src/Storage/Memory/Behind.antt =====
-- The items of a memory storage that lie behind a cursor.
use langgraph_cpp.Prelude.{
  ◌≡◌, refl, true, false, ◌⊎◌, inl, inr, cmp_above, subst, Option, none, some, List, [], ◌∷◌,
  text_key, if◌then◌else◌, Ordering, arith,
}
use langgraph_cpp.Prelude.Map.{Map, IsAbove}
use langgraph_cpp.Storage.{StorageKey, StorageItem, StorageListOptions, storage_key}
use langgraph_cpp.Storage.Memory.{is_skipped, is_before}

module _ (o : StorageListOptions) where
  -- The items behind a cursor that the options ask for.
  unfoldable pub wanted : Option StorageKey → Map StorageKey StorageItem → List StorageItem
  wanted after [] = []
  wanted after ((k, item) ∷ m) =
      let rest = wanted after m in if is_skipped o after k item then rest else item ∷ rest

  -- Every key lies behind the cursor.
  abbrev pub AllBehind : Option StorageKey → Map StorageKey StorageItem → Type 0
  AllBehind after [] = Unit
  AllBehind after ((k, item) ∷ m) = (is_before after k ≡ false) × AllBehind after m

  pub wanted-AllBehind :
      (after : Option StorageKey) (m : Map StorageKey StorageItem)
      → AllBehind after m
      → wanted after m ≡ wanted none m
  unfolding wanted
  wanted-AllBehind after [] h = refl
  wanted-AllBehind after ((k, item) ∷ m) h = rw (h.0, wanted-AllBehind after m h.1) refl

  pub before_at :
      (j k : StorageKey) → storage_key.cmp j k ≡ Ordering.lt → is_before (some j) k ≡ false
  before_at j k h = ground (arith, cmp_above j k h)

  pub before_up :
      (after : Option StorageKey) (j k : StorageKey)
      → is_before after j ≡ false
      → storage_key.cmp j k ≡ Ordering.lt
      → is_before after k ≡ false
  before_up none j k b h = refl
  before_up (some c) j k b h =
      before_at c k (storage_key.cmp_trans c j k (storage_key.cmp_flip j c (ground arith)) h)

  pub above-AllBehind :
      (j : StorageKey) (m : Map StorageKey StorageItem) → IsAbove j m → AllBehind (some j) m
  above-AllBehind j [] a = tt
  above-AllBehind j ((k, item) ∷ m) a = (before_at j k a.0, above-AllBehind j m a.1)

  pub beyond-AllBehind :
      (after : Option StorageKey) (j : StorageKey) (m : Map StorageKey StorageItem)
      → is_before after j ≡ false
      → IsAbove j m
      → AllBehind after m
  beyond-AllBehind after j [] b a = tt
  beyond-AllBehind after j ((k, item) ∷ m) b a =
      (before_up after j k b a.0, beyond-AllBehind after j m b a.1)

  -- `j` is `i`, or lies above it.
  abbrev pub IsFrom : StorageKey → StorageKey → Type 0
  IsFrom i j = (i ≡ j) ⊎ (storage_key.cmp i j ≡ Ordering.lt)

  pub from-before : (k j : StorageKey) → IsFrom k j → is_before (some j) k ≡ true
  from-before k j (inl e) = ground (arith, storage_key.cmp_iff k j)
  from-before k j (inr h) = ground (arith, h)

  pub from-behind :
      (after : Option StorageKey) (k j : StorageKey)
      → is_before after k ≡ false
      → IsFrom k j
      → is_before after j ≡ false
  from-behind after k j b (inl e) = subst (λ x. is_before after x ≡ false) e b
  from-behind after k j b (inr h) = before_up after k j b h

  pub from-up :
      (i k j : StorageKey)
      → storage_key.cmp i k ≡ Ordering.lt
      → IsFrom k j
      → storage_key.cmp i j ≡ Ordering.lt
  from-up i k j h (inl e) = subst (λ x. storage_key.cmp i x ≡ Ordering.lt) e h
  from-up i k j h (inr f) = storage_key.cmp_trans i k j h f
