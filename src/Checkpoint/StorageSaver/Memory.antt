-- ===== src/Checkpoint/StorageSaver/Memory.antt =====
-- `StorageSaver` on a memory storage: its calls in sequence, and what each of them writes.
use langgraph_cpp.Prelude.{
  ℕ, String, ◌≡◌, refl, sym, ap, ◌∙◌, subst, Option, none, some, Result, ok, err, Status, ◌==◌,
  text_key, nat_key, if◌then◌else◌, arith, fail_if-eq-ok, ok-injective, invalid_argument,
}
use langgraph_cpp.Prelude.Map.{lookup}
use langgraph_cpp.Json.{JsonLib, Json, text}
use langgraph_cpp.Storage.{
  StorageKey, StorageItem, storage_key, StoragePutOptions, insert_only, upsert,
}
use langgraph_cpp.Storage.Memory
use langgraph_cpp.Storage.Memory.{MemoryStorage, stored_item}
use langgraph_cpp.Storage.Memory.Items.{get-put}
use langgraph_cpp.Checkpoint.Types.{Checkpoint}
use langgraph_cpp.Checkpoint.Payload.{
  JsonText, CheckpointCodec, Payload, storage_value_from_payload, payload_from_storage_value,
  payload_json,
}
use langgraph_cpp.Checkpoint.StorageSaver.{
  StorageSaver, StorageCalls, Call, need, change, check_options, flow_of,
}
use langgraph_cpp.Run.Flow.{Flow, proceeds, stops, on_flow, pure, leave, attempt, ◌>>=◌}

-- A call that is refused leaves the storage as it is.
abbrev pub kept_or : MemoryStorage → Result MemoryStorage → MemoryStorage × Result (Unit {0})
kept_or s (ok t) = (t, ok tt)
kept_or s (err e) = (s, err e)

-- A memory storage, with the time at which each key is written.
abbrev pub memory_calls : (StorageKey → ℕ) → StorageCalls MemoryStorage
memory_calls clock = record {
  put = λ k v o s. kept_or s (Memory.put k v o (clock k) s);
  get = Memory.get;
  list = Memory.list;
  remove = λ k s. kept_or s (Memory.remove k s);
}

module _ {σ : Type 0} {A B : Type 0} where
  -- A sequence of calls that does not fail.
  pub >>=-proceeds :
      (m : Call σ A) (f : A → Call σ B) (s t : σ) (b : B)
      → (m >>= f) s ≡ (t, proceeds b)
      → (s1 : σ) × (a : A) × (m s ≡ (s1, proceeds a)) × (f a s1 ≡ (t, proceeds b))
  unfolding ◌>>=◌
  >>=-proceeds m f s t b e = inverted (m s) e
    where
      inverted :
          (p : σ × Flow (Option Status) A)
          → on_flow p f ≡ (t, proceeds b)
          → (s1 : σ) × (a : A) × (p ≡ (s1, proceeds a)) × (f a s1 ≡ (t, proceeds b))
      inverted (s1, proceeds a) e = (s1, a, refl, e)
      inverted (s1, stops r) e = cc

  pub need-proceeds :
      (r : Result A) (f : A → Call σ B) (s t : σ) (b : B)
      → (need r >>= f) s ≡ (t, proceeds b)
      → (a : A) × (r ≡ ok a) × (f a s ≡ (t, proceeds b))
  unfolding ◌>>=◌ attempt pure leave
  need-proceeds (ok a) f s t b e = (a, refl, e)
  need-proceeds (err x) f s t b e = cc

  pub need-ok :
      (r : Result A) (f : A → Call σ B) (s : σ) (a : A) → r ≡ ok a → (need r >>= f) s ≡ f a s
  unfolding ◌>>=◌ attempt pure leave
  need-ok (ok a') f s a e = ap (λ x. f x s) (ok-injective e)
  need-ok (err x) f s a e = cc

  pub >>=-ok :
      (m : Call σ A) (f : A → Call σ B) (s t : σ) (a : A)
      → m s ≡ (t, proceeds a)
      → (m >>= f) s ≡ f a t
  unfolding ◌>>=◌
  >>=-ok m f s t a e = rw (e) refl

module _ ⦃J : JsonLib⦄ where
  -- What the saver relies on: the text of a payload is not read as another one, and where a payload
  -- that a checkpoint was encoded to is decoded, it gives what the codec keeps of the checkpoint,
  -- `as_read`. `JsonCheckpointCodec` keeps the moment of creation in milliseconds.
  pub record SaverInputs (texts : JsonText) (codec : CheckpointCodec)
      (as_read : Checkpoint → Checkpoint) : Type 0 where
    pub parse-dump :
        (p : Payload) (k : Json)
        → texts.parse (texts.dump (payload_json p)) ≡ ok k
        → payload_json p ≡ k
    pub decode-encode :
        (c d : Checkpoint) (p : Payload)
        → codec.encode c ≡ ok p
        → codec.decode p ≡ ok d
        → as_read c ≡ d

  -- The stored text of a checkpoint is within the limits of the reader and of the codec.
  abbrev pub IsReadable : JsonText → CheckpointCodec → Checkpoint → Type 0
  IsReadable texts codec c =
      (p : Payload) (value : String)
      → codec.encode c ≡ ok p
      → storage_value_from_payload texts p ≡ ok value
      → (k : Json) × (d : Checkpoint) × (texts.parse value ≡ ok k) × (codec.decode p ≡ ok d)

  pub read-value :
      (texts : JsonText) (codec : CheckpointCodec) (as_read : Checkpoint → Checkpoint)
      (laws : SaverInputs texts codec as_read) (p : Payload) (value : String) (k : Json)
      → texts.parse value ≡ ok k
      → storage_value_from_payload texts p ≡ ok value
      → payload_from_storage_value texts value ≡ ok p
  unfolding storage_value_from_payload payload_from_storage_value lookup
  read-value texts codec as_read laws p value k parsed e =
      let (_, made) = fail_if-eq-ok (p.content_type == "") invalid_argument _ _ e in
      let back = laws.parse-dump p k (ap texts.parse (ok-injective made) ∙ parsed) in
      subst (λ v. payload_from_storage_value texts v ≡ ok p) (ok-injective made)
        (rw (ap texts.parse (ok-injective made) ∙ parsed, sym back, J.view-make _)
          (rw (J.view-make (text p.content_type), J.view-make (text p.data_text)) refl))

  pub check_options-ok :
      {σ : Type 0} (saver : StorageSaver σ) (s t x : σ)
      → check_options saver s ≡ (t, proceeds tt)
      → (s ≡ t) × (check_options saver x ≡ (x, proceeds tt))
  unfolding check_options ◌>>=◌ attempt pure leave
  check_options-ok saver s t x e = ground arith

  abbrev pub inserting : StoragePutOptions
  inserting = record { mode = insert_only; expected_version = none }

  abbrev pub replacing : StoragePutOptions
  replacing = record { mode = upsert; expected_version = none }

  -- A put into a memory storage that does not fail.
  memory-put :
      (clock : StorageKey → ℕ) (k j : StorageKey) (value : String) (o : StoragePutOptions)
      (s t : MemoryStorage) (res : Result MemoryStorage)
      → Memory.put k value o (clock k) s ≡ res
      → (kept_or s res).0 ≡ t
      → flow_of (kept_or s res).1 ≡ proceeds tt
      → (item : StorageItem) × (item.value ≡ value)
        × (Memory.get j t ≡ (if k == j then ok (some item) else Memory.get j s))
  unfolding stored_item
  memory-put clock k j value o s t (ok t') e same h = (
    stored_item k value (clock k) (lookup k s.items),
    refl,
    subst
        (λ x. Memory.get j x ≡ (
          if k == j
          then ok (some (stored_item k value (clock k) (lookup k s.items)))
          else Memory.get j s))
        same (get-put k j value o (clock k) s t' e),
  )
  memory-put clock k j value o s t (err x) e same h = cc

  pub changed-item :
      (calls : StorageCalls MemoryStorage) (clock : StorageKey → ℕ) (k j : StorageKey)
      (value : String) (o : StoragePutOptions) (s t : MemoryStorage)
      → memory_calls clock ≡ calls
      → change (calls.put k value o) s ≡ (t, proceeds tt)
      → (item : StorageItem) × (item.value ≡ value)
        × (calls.get j t ≡ (if k == j then ok (some item) else calls.get j s))
  unfolding change
  changed-item calls clock k j value o s t in_memory =
      subst
        (λ calls.
          change (calls.put k value o) s ≡ (t, proceeds tt)
          → (item : StorageItem) × (item.value ≡ value)
            × (calls.get j t ≡ (if k == j then ok (some item) else calls.get j s)))
        in_memory
        (λ h.
          memory-put clock k j value o s t (Memory.put k value o (clock k) s) refl (ap (λ p. p.0) h)
            (ap (λ p. p.1) h))

  memory-inserted :
      (k : StorageKey) (value : String) (now : ℕ) (s t : MemoryStorage)
      → Memory.put k value inserting now s ≡ ok t
      → Memory.get k s ≡ ok none
  unfolding Memory.put Memory.get
  memory-inserted k value now s t e = ground arith

  -- A put that only inserts finds nothing under its key.
  pub changed-none :
      (calls : StorageCalls MemoryStorage) (clock : StorageKey → ℕ) (k : StorageKey)
      (value : String) (s t : MemoryStorage)
      → memory_calls clock ≡ calls
      → change (calls.put k value inserting) s ≡ (t, proceeds tt)
      → calls.get k s ≡ ok none
  unfolding change
  changed-none calls clock k value s t in_memory =
      subst
        (λ calls.
          change (calls.put k value inserting) s ≡ (t, proceeds tt) → calls.get k s ≡ ok none)
        in_memory (λ h. inserted (Memory.put k value inserting (clock k) s) refl (ap (λ p. p.1) h))
    where
      inserted :
          (res : Result MemoryStorage)
          → Memory.put k value inserting (clock k) s ≡ res
          → flow_of (kept_or s res).1 ≡ proceeds tt
          → Memory.get k s ≡ ok none
      inserted (ok x) e h = memory-inserted k value (clock k) s x e
      inserted (err x) e h = cc
