-- ===== src/Storage/Memory/Listing.antt =====
-- Reading a listing of a memory storage to its end.
use langgraph_cpp.Prelude.{
  ℕ, zero, suc, ◌-◌, ◌<◌, ◌≤◌, String, ◌≡◌, refl, sym, ap, ◌∙◌, subst, true, false, inl, inr,
  Option, none, some, List, [], ◌∷◌, ◌++◌, Result, ok, err, ◌==◌, text_key, length, length-append,
  ◌>>=◌, arith, nat_key,
}
use langgraph_cpp.Prelude.Map.{Map}
use langgraph_cpp.Storage.{
  StorageKey, StorageItem, StorageListOptions, StorageListResult, StorageLimits,
  storage_key_from_cursor, storage_cursor_from_key, validate_storage_list_options,
  storage_key_matches_list_options,
}
use langgraph_cpp.Storage.Cursor.{storage_key_from_cursor-of_key, cursor-nonempty}
use langgraph_cpp.Storage.Pages.{each_page}
use langgraph_cpp.Storage.Memory.{MemoryStorage, list, list_items, ensure_open}
use langgraph_cpp.Storage.Memory.Items.{IsName, IsValid}
use langgraph_cpp.Storage.Memory.Behind.{wanted}
use langgraph_cpp.Storage.Memory.Pages.{IsPage, list_items-IsPage}

abbrev from : StorageListOptions → String → StorageListOptions
from o cursor = record o { cursor = cursor }

wanted-from :
    (o : StorageListOptions) (cursor : String) (after : Option StorageKey)
    (m : Map StorageKey StorageItem)
    → wanted (from o cursor) after m ≡ wanted o after m
unfolding wanted storage_key_matches_list_options
wanted-from o cursor after [] = refl
wanted-from o cursor after ((k, item) ∷ m) = rw (wanted-from o cursor after m) refl

validate-from :
    (o : StorageListOptions) (cursor : String) (limits : StorageLimits)
    → validate_storage_list_options o limits ≡ validate_storage_list_options (from o cursor) limits
unfolding validate_storage_list_options
validate-from o cursor limits = refl

valid-limit :
    (o : StorageListOptions) (limits : StorageLimits)
    → validate_storage_list_options o limits ≡ ok tt
    → (n : ℕ) × (o.limit ≡ suc n)
unfolding validate_storage_list_options
valid-limit o limits h = (o.limit - 1, ground arith)

IsPage-from :
    (o : StorageListOptions) (cursor : String) (limits : StorageLimits) (after : Option StorageKey)
    (m : Map StorageKey StorageItem) (page : StorageListResult)
    → IsPage (from o cursor) limits after m page
    → IsPage o limits after m page
IsPage-from o cursor limits after m page (inl e) = inl (e.0, e.1 ∙ wanted-from o cursor after m)
IsPage-from o cursor limits after m page (inr (j, h)) = inr (
  j,
  (
    h.0,
    h.1,
    h.2,
    h.3,
    ap (λ w. page.items ++ w) (sym (wanted-from o cursor (some j) m))
        ∙ h.4
        ∙ wanted-from o cursor after m,
  ),
)

list-IsPage :
    (o : StorageListOptions) (s : MemoryStorage) (cursor : String) (after : Option StorageKey)
    → IsValid s
    → s.closed ≡ false
    → validate_storage_list_options o s.limits ≡ ok tt
    → storage_key_from_cursor cursor s.limits ≡ ok after
    → (page : StorageListResult) × (list (from o cursor) s ≡ ok page)
      × IsPage o s.limits after s.items page
unfolding list ensure_open
list-IsPage o s cursor after v opened valid at =
    let (n, limit) = valid-limit o s.limits valid in
    (
      list_items (from o cursor) after o.limit none s.items,
      rw (at, sym (validate-from o cursor s.limits) ∙ valid, opened) refl,
      IsPage-from o cursor s.limits after s.items _ (
          subst
            (λ l.
              IsPage (from o cursor) s.limits after s.items
                (list_items (from o cursor) after l none s.items))
            (sym limit) (list_items-IsPage (from o cursor) s.limits after n s.items v.0 v.1)),
    )

module _ {A : Type 0} (o : StorageListOptions) (s : MemoryStorage)
    (body : A → List StorageItem → Result A)
    (body_append : (a : A) (xs ys : List StorageItem)
      → body a (xs ++ ys) ≡ (body a xs >>= λ b. body b ys)) where
  abbrev pub read_page : String → Result StorageListResult
  read_page cursor = list (from o cursor) s

  each_page-from :
      (fuel : ℕ) (cursor : String) (after : Option StorageKey) (acc : A)
      → IsValid s
      → s.closed ≡ false
      → validate_storage_list_options o s.limits ≡ ok tt
      → storage_key_from_cursor cursor s.limits ≡ ok after
      → length (wanted o after s.items) < fuel
      → each_page read_page body fuel cursor acc ≡ some (body acc (wanted o after s.items))
  unfolding each_page
  each_page-from zero cursor after acc v opened valid at h = elim h [ ]
  each_page-from (suc fuel) cursor after acc v opened valid at h =
      let (page, reads, is_page) = list-IsPage o s cursor after v opened valid at in
      rw (reads, each_page)
        (step page (body acc page.items)
          (λ j next name shorter.
            each_page-from fuel (storage_cursor_from_key j) (some j) next v opened valid
              (storage_key_from_cursor-of_key j s.limits name.0 name.1) shorter)
          is_page refl)
    where
      step :
          (page : StorageListResult) (res : Result A)
          → ((j : StorageKey) (next : A)
              → IsName s.limits j
              → length (wanted o (some j) s.items) < fuel
              → each_page read_page body fuel (storage_cursor_from_key j) next
                ≡ some (body next (wanted o (some j) s.items)))
          → IsPage o s.limits after s.items page
          → body acc page.items ≡ res
          → elim (body acc page.items) as (λ _. Option (Result A)) [
            | err e ↦ some (err e)
            | ok next ↦ elim (page.next_cursor == "") as (λ _. Option (Result A)) [
              | true ↦ some (ok next)
              | false ↦ each_page read_page body fuel page.next_cursor next
            ]
          ]
            ≡ some (body acc (wanted o after s.items))
      step page (err e) rec (inl (last, items)) is = rw (sym items) (rw (is) refl)
      step page (ok next) rec (inl (last, items)) is = rw (sym items) (rw (is, last) refl)
      step page (err e) rec (inr (j, m)) is =
          rw (sym m.4) (rw (body_append acc page.items (wanted o (some j) s.items), is) refl)
      step page (ok next) rec (inr (j, m)) is = rw (sym m.4) (
          rw
            (
              body_append acc page.items (wanted o (some j) s.items),
              is,
              ap (λ c. c == "") m.2 ∙ cursor-nonempty j,
            )
            (rw (m.2) (
              rec j next m.3 (
                omega (
                  arith,
                  h,
                  m.1,
                  ap length m.4,
                  length-append page.items (wanted o (some j) s.items),
                )))))

  length-wanted :
      (after : Option StorageKey) (m : Map StorageKey StorageItem)
      → length (wanted o after m) ≤ length m
  unfolding wanted
  length-wanted after [] = omega arith
  length-wanted after ((k, item) ∷ m) = ground (arith, length-wanted after m)

  -- Reading page after page, whatever the size of a page, takes in exactly the items that the options
  -- ask for, in the order of their keys, where the storage is open and valid, the options pass their
  -- check, and taking in one list after another is taking in both at once; as many rounds as there are
  -- items, and one, are enough.
  pub each_page-wanted :
      (fuel : ℕ) (acc : A)
      → IsValid s
      → s.closed ≡ false
      → validate_storage_list_options o s.limits ≡ ok tt
      → length s.items < fuel
      → each_page read_page body fuel "" acc ≡ some (body acc (wanted o none s.items))
  each_page-wanted fuel acc v opened valid h =
      each_page-from fuel "" none acc v opened valid (unfold storage_key_from_cursor in refl)
        (omega (arith, length-wanted none s.items))
