-- ===== src/Checkpoint/StorageSaver/Taken.antt =====
-- A checkpoint whose name is taken in a memory storage.
use langgraph_cpp.Prelude.{
  ℕ, String, ◌≡◌, refl, sym, subst, ◌∙◌, some, Result, ok, err, Status, ◌⊎◌, inl, inr, arith,
  ok-injective,
}
use langgraph_cpp.Json.{JsonLib}
use langgraph_cpp.Storage.{StorageKey, StorageItem}
use langgraph_cpp.Storage.Memory
use langgraph_cpp.Storage.Memory.{MemoryStorage}
use langgraph_cpp.Checkpoint.Types.{Checkpoint}
use langgraph_cpp.Checkpoint.Keys.{key_for}
use langgraph_cpp.Checkpoint.StorageSaver.{
  StorageSaver, StorageCalls, Call, need, change, check_options, put,
}
use langgraph_cpp.Checkpoint.StorageSaver.Memory.{memory_calls, inserting, kept_or}
use langgraph_cpp.Run.Flow.{proceeds, stops, pure, leave, attempt, ◌>>=◌, ◌>>◌}

-- A call that fails and changes nothing.
abbrev Refuses : {A : Type 0} → Call MemoryStorage A → MemoryStorage → Type 0
Refuses m s = (e : Status) × (m s ≡ (s, stops (some e)))

-- A check: it changes nothing.
abbrev IsCheck : Call MemoryStorage (Unit {0}) → MemoryStorage → Type 0
IsCheck m s = (m s ≡ (s, proceeds tt)) ⊎ Refuses m s

module _ {A B : Type 0} where
  need-Refuses :
      (r : Result A) (f : A → Call MemoryStorage B) (s : MemoryStorage)
      → ((a : A) → r ≡ ok a → Refuses (f a) s)
      → Refuses (need r >>= f) s
  unfolding ◌>>=◌ attempt pure leave
  need-Refuses (ok a) f s h = h a refl
  need-Refuses (err x) f s h = (x, refl)

module _ {B : Type 0} where
  check-Refuses :
      (m : Call MemoryStorage (Unit {0})) (f : Unit {0} → Call MemoryStorage B) (s : MemoryStorage)
      → IsCheck m s
      → Refuses (f tt) s
      → Refuses (m >>= f) s
  unfolding ◌>>=◌
  check-Refuses m f s (inl passed) (e, h) = (e, rw (passed) h)
  check-Refuses m f s (inr (e, refused)) h = (e, rw (refused) refl)

  refused-first :
      (m : Call MemoryStorage (Unit {0})) (f : Unit {0} → Call MemoryStorage B) (s : MemoryStorage)
      → Refuses m s
      → Refuses (m >>= f) s
  unfolding ◌>>=◌
  refused-first m f s (e, refused) = (e, rw (refused) refl)

need-IsCheck : (r : Result (Unit {0})) (s : MemoryStorage) → IsCheck (need r) s
unfolding attempt pure leave
need-IsCheck (ok tt) s = inl refl
need-IsCheck (err x) s = inr (x, refl)

both-IsCheck :
    (m n : Call MemoryStorage (Unit {0})) (s : MemoryStorage)
    → IsCheck m s
    → IsCheck n s
    → IsCheck (m >> n) s
unfolding ◌>>=◌
both-IsCheck m n s (inl passed) h = rw (passed) h
both-IsCheck m n s (inr (e, refused)) h = inr (e, rw (refused) refl)

module _ ⦃J : JsonLib⦄ where
  check_options-IsCheck :
      (saver : StorageSaver MemoryStorage) (s : MemoryStorage) → IsCheck (check_options saver) s
  unfolding check_options
  check_options-IsCheck saver s = both-IsCheck _ _ s (need-IsCheck _ s) (
      both-IsCheck _ _ s (need-IsCheck _ s)
        (both-IsCheck _ _ s (need-IsCheck _ s) (need-IsCheck _ s)))

  held-not_put :
      (k : StorageKey) (item : StorageItem) (value : String) (now : ℕ) (s t : MemoryStorage)
      → Memory.get k s ≡ ok (some item)
      → Memory.put k value inserting now s ≡ ok t
      → ⊥
  unfolding Memory.put Memory.get
  held-not_put k item value now s t h e = ground arith

  held-Refuses :
      (calls : StorageCalls MemoryStorage) (clock : StorageKey → ℕ) (k : StorageKey)
      (item : StorageItem) (value : String) (s : MemoryStorage)
      → memory_calls clock ≡ calls
      → calls.get k s ≡ ok (some item)
      → Refuses (change (calls.put k value inserting)) s
  unfolding change
  held-Refuses calls clock k item value s in_memory =
      subst
        (λ calls. calls.get k s ≡ ok (some item) → Refuses (change (calls.put k value inserting)) s)
        in_memory (λ h. by_result (Memory.put k value inserting (clock k) s) refl h)
    where
      by_result :
          (res : Result MemoryStorage)
          → Memory.put k value inserting (clock k) s ≡ res
          → Memory.get k s ≡ ok (some item)
          → Refuses (change (λ x. kept_or x (Memory.put k value inserting (clock k) x))) s
      by_result (ok t) e h = absurd (held-not_put k item value (clock k) s t h e)
      by_result (err x) e h = (x, rw (e) refl)

  -- Where a memory storage holds an item under a checkpoint's key, a put of the checkpoint fails, and
  -- the storage, with the pointer to the latest checkpoint, stays as it is.
  pub put-Refuses :
      (saver : StorageSaver MemoryStorage) (clock : StorageKey → ℕ) (c : Checkpoint)
      (s : MemoryStorage) (key : StorageKey) (item : StorageItem)
      → saver.storage ≡ memory_calls clock
      → key_for saver.scope c.thread_id c.checkpoint_namespace c.checkpoint_id ≡ ok key
      → saver.storage.get key s ≡ ok (some item)
      → (e : Status) × (put saver c s ≡ (s, stops (some e)))
  unfolding put
  put-Refuses saver clock c s key item in_memory keyed holds =
      check-Refuses _ _ s (check_options-IsCheck saver s) (
        check-Refuses _ _ s (need-IsCheck _ s) (
          need-Refuses _ _ s λ key' keyed'. need-Refuses _ _ s λ payload encoded.
            need-Refuses _ _ s λ value written. refused-first _ _ s (
              held-Refuses saver.storage clock key' item value s (sym in_memory) (
                subst (λ k. saver.storage.get k s ≡ ok (some item))
                  (ok-injective (sym keyed ∙ keyed')) holds))))
