-- ===== src/Storage/Memory/Pages.antt =====
-- A page of a listing of a memory storage.
use langgraph_cpp.Prelude.{
  ℕ, zero, suc, ◌<◌, ◌≡◌, refl, sym, ap, ◌∙◌, true, false, ◌⊎◌, inl, inr, subst, Option, none, some,
  [], ◌∷◌, ◌++◌, text_key, length, Ordering, Bool-cases, arith,
}
use langgraph_cpp.Prelude.Map.{Map, IsSorted, IsAbove}
use langgraph_cpp.Storage.{
  StorageKey, StorageItem, StorageLimits, StorageListOptions, StorageListResult, storage_key,
  storage_key_matches_list_options, storage_cursor_from_key,
}
use langgraph_cpp.Storage.Memory.{list_items, is_skipped, is_before, cursor_of, with_item}
use langgraph_cpp.Storage.Memory.Items.{IsName, HasNames}
use langgraph_cpp.Storage.Memory.Behind.{
  wanted, wanted-AllBehind, before_up, above-AllBehind, beyond-AllBehind, IsFrom, from-before,
  from-behind, from-up,
}

module _ (o : StorageListOptions) where
  -- A page is all that is left, or ends at a key behind which the rest lies.
  abbrev Ends : Map StorageKey StorageItem → StorageListResult → Type 0
  Ends m res = (res.next_cursor ≡ "") × (res.items ≡ wanted o none m)

  abbrev StopsAt :
      StorageLimits → Map StorageKey StorageItem → StorageListResult → StorageKey → Type 0
  StopsAt limits m res j =
      (res.next_cursor ≡ storage_cursor_from_key j)
      × IsName limits j
      × (res.items ++ wanted o (some j) m ≡ wanted o none m)

  abbrev GoesOn :
      StorageLimits → StorageKey → Map StorageKey StorageItem → StorageListResult → Type 0
  GoesOn limits last m res =
      Ends m res ⊎ ((j : StorageKey) × IsFrom o last j × StopsAt limits m res j)

  wanted-skip :
      (x : Option StorageKey) (k : StorageKey) (item : StorageItem) (m : Map StorageKey StorageItem)
      → is_skipped o x k item ≡ true
      → wanted o x ((k, item) ∷ m) ≡ wanted o x m
  unfolding wanted
  wanted-skip x k item m h = rw (h) refl

  wanted-take :
      (x : Option StorageKey) (k : StorageKey) (item : StorageItem) (m : Map StorageKey StorageItem)
      → is_skipped o x k item ≡ false
      → wanted o x ((k, item) ∷ m) ≡ item ∷ wanted o x m
  unfolding wanted
  wanted-take x k item m h = rw (h) refl

  -- An item that is asked for by no cursor changes nothing.
  GoesOn-skip :
      (limits : StorageLimits) (last k : StorageKey) (item : StorageItem)
      (m : Map StorageKey StorageItem) (res : StorageListResult)
      → storage_key_matches_list_options item.key o ≡ false
      → GoesOn limits last m res
      → GoesOn limits last ((k, item) ∷ m) res
  GoesOn-skip limits last k item m res fails (inl e) =
      inl (e.0, e.1 ∙ sym (wanted-skip none k item m (rw (fails) refl)))
  GoesOn-skip limits last k item m res fails (inr (j, f, (cursor, n, e))) = inr (
    j,
    f,
    (
      cursor,
      n,
      ap (λ w. res.items ++ w) (wanted-skip (some j) k item m (ground arith))
          ∙ e
          ∙ sym (wanted-skip none k item m (rw (fails) refl)),
    ),
  )

  GoesOn-take :
      (limits : StorageLimits) (last k : StorageKey) (item : StorageItem)
      (m : Map StorageKey StorageItem) (res : StorageListResult)
      → storage_key_matches_list_options item.key o ≡ true
      → storage_key.cmp last k ≡ Ordering.lt
      → GoesOn limits k m res
      → GoesOn limits last ((k, item) ∷ m) (record res { items = item ∷ res.items })
  GoesOn-take limits last k item m res holds above (inl e) =
      inl (e.0, ap (λ w. item ∷ w) e.1 ∙ sym (wanted-take none k item m (rw (holds) refl)))
  GoesOn-take limits last k item m res holds above (inr (j, f, (cursor, n, e))) = inr (
    j,
    inr (from-up o last k j above f),
    (
      cursor,
      n,
      ap (λ w. item ∷ res.items ++ w)
            (wanted-skip (some j) k item m (ground (arith, from-before o k j f)))
          ∙ ap (λ w. item ∷ w) e
          ∙ sym (wanted-take none k item m (rw (holds) refl)),
    ),
  )

  list_items-skip :
      (after : Option StorageKey) (room : ℕ) (last : Option StorageKey) (k : StorageKey)
      (item : StorageItem) (m : Map StorageKey StorageItem)
      → is_skipped o after k item ≡ true
      → list_items o after room last m ≡ list_items o after room last ((k, item) ∷ m)
  unfolding list_items
  list_items-skip after room last k item m h = rw (h, list_items) refl

  list_items-full :
      (after last : Option StorageKey) (k : StorageKey) (item : StorageItem)
      (m : Map StorageKey StorageItem)
      → is_skipped o after k item ≡ false
      → record { items = []; next_cursor = cursor_of last }
        ≡ list_items o after zero last ((k, item) ∷ m)
  unfolding list_items
  list_items-full after last k item m h = rw (h, list_items) refl

  list_items-take :
      (after : Option StorageKey) (room : ℕ) (last : Option StorageKey) (k : StorageKey)
      (item : StorageItem) (m : Map StorageKey StorageItem)
      → is_skipped o after k item ≡ false
      → item.key ≡ k
      → with_item item (list_items o after room (some k) m)
        ≡ list_items o after (suc room) last ((k, item) ∷ m)
  unfolding list_items
  list_items-take after room last k item m h e = rw (h, e, list_items) refl

  -- Behind the last item that was taken.
  going_on :
      (limits : StorageLimits) (after : Option StorageKey) (room : ℕ) (last : StorageKey)
      (m : Map StorageKey StorageItem)
      → IsName limits last
      → is_before after last ≡ false
      → IsAbove last m
      → IsSorted m
      → HasNames limits m
      → GoesOn limits last m (list_items o after room (some last) m)
  unfolding wanted list_items
  going_on limits after room last [] n b a s h = inl (refl, refl)
  going_on limits after room last ((k, item) ∷ m) n b a s h =
      elim (Bool-cases (storage_key_matches_list_options item.key o)) [
        | inr fails ↦
            subst (λ res. GoesOn limits last ((k, item) ∷ m) res)
              (list_items-skip after room (some last) k item m (ground (arith, fails)))
              (GoesOn-skip limits last k item m (list_items o after room (some last) m) fails
                (going_on limits after room last m n b a.1 s.1 h.2))
        | inl holds ↦
            taken room (ground (arith, holds, before_up o after last k b a.0)) holds
              (λ r. going_on limits after r k m h.1 (before_up o after last k b a.0) s.0 s.1 h.2)
      ]
    where
      taken :
          (room : ℕ)
          → is_skipped o after k item ≡ false
          → storage_key_matches_list_options item.key o ≡ true
          → ((r : ℕ) → GoesOn limits k m (list_items o after r (some k) m))
          → GoesOn limits last ((k, item) ∷ m) (list_items o after room (some last) ((k, item) ∷ m))
      taken zero stays holds rec =
          subst (λ res. GoesOn limits last ((k, item) ∷ m) res)
            (list_items-full after (some last) k item m stays)
            (inr (
              last,
              inl refl,
              (
                refl,
                n,
                wanted-AllBehind o (some last) ((k, item) ∷ m)
                    (above-AllBehind o last ((k, item) ∷ m) a),
              ),
            ))
      taken (suc r) stays holds rec =
          subst (λ res. GoesOn limits last ((k, item) ∷ m) res)
            (list_items-take after r (some last) k item m stays h.0)
            (GoesOn-take limits last k item m (list_items o after r (some k) m) holds a.0 (rec r))

  -- A page of a listing from a cursor on: it is the last one, or it has items and ends at a key
  -- behind the cursor.
  abbrev pub HasMore :
      StorageLimits
      → Option StorageKey
      → Map StorageKey StorageItem
      → StorageListResult
      → StorageKey
      → Type 0
  HasMore limits after m res j =
      (is_before after j ≡ false)
      × (0 < length res.items)
      × (res.next_cursor ≡ storage_cursor_from_key j)
      × IsName limits j
      × (res.items ++ wanted o (some j) m ≡ wanted o after m)

  abbrev pub IsPage :
      StorageLimits → Option StorageKey → Map StorageKey StorageItem → StorageListResult → Type 0
  IsPage limits after m res =
      ((res.next_cursor ≡ "") × (res.items ≡ wanted o after m))
      ⊎ ((j : StorageKey) × HasMore limits after m res j)

  IsPage-skip :
      (limits : StorageLimits) (after : Option StorageKey) (k : StorageKey) (item : StorageItem)
      (m : Map StorageKey StorageItem) (res : StorageListResult)
      → is_skipped o after k item ≡ true
      → ((j : StorageKey) → is_before after j ≡ false → is_skipped o (some j) k item ≡ true)
      → IsPage limits after m res
      → IsPage limits after ((k, item) ∷ m) res
  IsPage-skip limits after k item m res gone later (inl e) =
      inl (e.0, e.1 ∙ sym (wanted-skip after k item m gone))
  IsPage-skip limits after k item m res gone later (inr (j, h)) = inr (
    j,
    (
      h.0,
      h.1,
      h.2,
      h.3,
      ap (λ w. res.items ++ w) (wanted-skip (some j) k item m (later j h.0))
          ∙ h.4
          ∙ sym (wanted-skip after k item m gone),
    ),
  )

  -- What lies before a cursor lies before every key behind it.
  later_skips :
      (after : Option StorageKey) (k j : StorageKey) (item : StorageItem)
      → is_skipped o after k item ≡ true
      → is_before after j ≡ false
      → is_skipped o (some j) k item ≡ true
  later_skips none k j item h b = ground (arith, h)
  later_skips (some c) k j item h b =
      ground
        (arith, h, storage_key.cmp_flip j c, storage_key.cmp_iff k c, storage_key.cmp_trans k c j)

  IsPage-take :
      (limits : StorageLimits) (after : Option StorageKey) (k : StorageKey) (item : StorageItem)
      (m : Map StorageKey StorageItem) (res : StorageListResult)
      → is_skipped o after k item ≡ false
      → IsAbove k m
      → GoesOn limits k m res
      → IsPage limits after ((k, item) ∷ m) (with_item item res)
  IsPage-take limits after k item m res stays a (inl e) =
      let rest =
        wanted-AllBehind o after m (beyond-AllBehind o after k m (ground (arith, stays)) a) in
      inl (e.0, ap (λ w. item ∷ w) (e.1 ∙ sym rest) ∙ sym (wanted-take after k item m stays))
  IsPage-take limits after k item m res stays a (inr (j, f, (cursor, n, e))) =
      let b : is_before after k ≡ false = ground (arith, stays) in
      let rest = wanted-AllBehind o after m (beyond-AllBehind o after k m b a) in
      inr (
        j,
        (
          from-behind o after k j b f,
          omega arith,
          cursor,
          n,
          ap (λ w. item ∷ res.items ++ w)
                (wanted-skip (some j) k item m (ground (arith, from-before o k j f)))
              ∙ ap (λ w. item ∷ w) (e ∙ sym rest)
              ∙ sym (wanted-take after k item m stays),
        ),
      )

  -- A page has room for an item.
  pub list_items-IsPage :
      (limits : StorageLimits) (after : Option StorageKey) (room : ℕ)
      (m : Map StorageKey StorageItem)
      → IsSorted m
      → HasNames limits m
      → IsPage limits after m (list_items o after (suc room) none m)
  unfolding wanted list_items
  list_items-IsPage limits after room [] s h = inl (refl, refl)
  list_items-IsPage limits after room ((k, item) ∷ m) s h =
      elim (Bool-cases (is_skipped o after k item)) [
        | inl gone ↦
            subst (λ res. IsPage limits after ((k, item) ∷ m) res)
              (list_items-skip after (suc room) none k item m gone)
              (IsPage-skip limits after k item m (list_items o after (suc room) none m) gone
                (λ j b. later_skips after k j item gone b)
                (list_items-IsPage limits after room m s.1 h.2))
        | inr stays ↦
            subst (λ res. IsPage limits after ((k, item) ∷ m) res)
              (list_items-take after room none k item m stays h.0)
              (IsPage-take limits after k item m (list_items o after room (some k) m) stays s.0
                (going_on limits after room k m h.1 (ground (arith, stays)) s.0 s.1 h.2))
      ]
