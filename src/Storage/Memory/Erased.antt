-- ===== src/Storage/Memory/Erased.antt =====
-- Removing from a memory storage every key that a listing gives.
use langgraph_cpp.Prelude.{
  ◌≡◌, refl, ◌∙◌, Bool, true, false, none, List, [], ◌∷◌, ok, arith, map, any, if◌then◌else◌, ◌==◌,
  key_eq_iff, Bool-cases, inl, inr, text_key,
}
use langgraph_cpp.Prelude.Map.{Map, lookup, erase, lookup-erase}
use langgraph_cpp.Storage.{
  StorageKey, StorageItem, StorageListOptions, StorageLimits, storage_key,
  storage_key_matches_list_options, validate_storage_key,
}
use langgraph_cpp.Storage.Memory.Items.{HasNames}
use langgraph_cpp.Storage.Memory.Behind.{wanted}

abbrev pub erased : List StorageKey → Map StorageKey StorageItem → Map StorageKey StorageItem
erased [] m = m
erased (k ∷ ks) m = erased ks (erase k m)

abbrev pub AllNames : StorageLimits → List StorageKey → Type 0
AllNames limits [] = Unit
AllNames limits (k ∷ ks) = (validate_storage_key k limits ≡ ok tt) × AllNames limits ks

abbrev pub keys_of : List StorageItem → List StorageKey
keys_of items = map (λ i. i.key) items

abbrev is_at : StorageKey → StorageKey → Bool
is_at j k = k == j

lookup-erased :
    (j : StorageKey) (ks : List StorageKey) (m : Map StorageKey StorageItem)
    → lookup j (erased ks m) ≡ (if any (is_at j) ks then none else lookup j m)
unfolding any
lookup-erased j [] m = refl
lookup-erased j (k ∷ ks) m = ground (arith, lookup-erased j ks (erase k m), lookup-erase k j m)

module _ (o : StorageListOptions) where
  pub wanted-AllNames :
      (limits : StorageLimits) (m : Map StorageKey StorageItem)
      → HasNames limits m
      → AllNames limits (keys_of (wanted o none m))
  unfolding wanted
  wanted-AllNames limits [] h = tt
  wanted-AllNames limits ((k, item) ∷ m) h =
      elim (Bool-cases (storage_key_matches_list_options item.key o)) [
        | inl asked ↦ rw (asked) (rw (h.0) h.1.0, wanted-AllNames limits m h.2)
        | inr other ↦ rw (other) (wanted-AllNames limits m h.2)
      ]

  -- What is listed is what the options ask for.
  listed-asked :
      (j : StorageKey) (limits : StorageLimits) (m : Map StorageKey StorageItem)
      → HasNames limits m
      → any (is_at j) (keys_of (wanted o none m)) ≡ true
      → storage_key_matches_list_options j o ≡ true
  unfolding wanted any
  listed-asked j limits [] h e = cc
  listed-asked j limits ((k, item) ∷ m) h e =
      ground (arith, key_eq_iff item.key j, listed-asked j limits m h.2)

  unlisted-none :
      (j : StorageKey) (limits : StorageLimits) (m : Map StorageKey StorageItem)
      → HasNames limits m
      → storage_key_matches_list_options j o ≡ true
      → any (is_at j) (keys_of (wanted o none m)) ≡ false
      → lookup j m ≡ none
  unfolding wanted any lookup
  unlisted-none j limits [] h asked e = refl
  unlisted-none j limits ((k, item) ∷ m) h asked e =
      ground (arith, key_eq_iff item.key j, key_eq_iff k j, h.0, unlisted-none j limits m h.2)

  -- When each key of a listing is removed, the keys that the options ask for are gone, and the
  -- others keep what they had.
  pub lookup-erased-wanted :
      (j : StorageKey) (limits : StorageLimits) (m : Map StorageKey StorageItem)
      → HasNames limits m
      → lookup j (erased (keys_of (wanted o none m)) m)
        ≡ (if storage_key_matches_list_options j o then none else lookup j m)
  lookup-erased-wanted j limits m h =
      lookup-erased j (keys_of (wanted o none m)) m
      ∙ (elim (Bool-cases (any (is_at j) (keys_of (wanted o none m)))) [
        | inl listed ↦ rw (listed, listed-asked j limits m h listed) refl
        | inr unlisted ↦ elim (Bool-cases (storage_key_matches_list_options j o)) [
          | inl asked ↦ rw (unlisted, asked) (unlisted-none j limits m h asked unlisted)
          | inr other ↦ rw (unlisted, other) refl
        ]
      ])
