-- ===== src/Checkpoint/StorageSaver/Fetch.antt =====
-- The checkpoints that `StorageSaver` holds in a memory storage.
use langgraph_cpp.Prelude.{
  ℕ, String, ◌≡◌, refl, sym, ap, ◌∙◌, subst, Bool, true, false, ◌&&◌, Option, none, some, Result,
  ok, err, Status, ◌==◌, text_key, nat_key, if◌then◌else◌, arith, Bool-cases, inl, inr, key_eq_iff,
  labelled, ok-injective,
}
use langgraph_cpp.Json.{JsonLib, Json}
use langgraph_cpp.Storage.{StorageKey, StorageItem, storage_key}
use langgraph_cpp.Storage.Memory.{MemoryStorage}
use langgraph_cpp.Checkpoint.Types.{Checkpoint}
use langgraph_cpp.Checkpoint.Keys.{key_for, key_prefix_for, namespace_part, latest_pointer_key_for}
use langgraph_cpp.Checkpoint.Hex.{hex_encode}
use langgraph_cpp.Checkpoint.Keys.Apart.{key_for-injective, pointer-ne-key}
use langgraph_cpp.Checkpoint.Payload.{Payload, storage_value_from_payload}
use langgraph_cpp.Checkpoint.StorageSaver.{
  StorageSaver, look, change, check_options, put, put_pointer, flow_of,
}
use langgraph_cpp.Checkpoint.StorageSaver.Read.{fetch, checkpoint_of, decoded}
use langgraph_cpp.Run.Flow.{Flow, proceeds, stops, on_flow, pure, leave, attempt, ◌>>=◌}
use langgraph_cpp.Checkpoint.StorageSaver.Memory.{
  memory_calls, >>=-proceeds, need-proceeds, need-ok, >>=-ok, SaverInputs, check_options-ok,
  inserting, replacing, changed-item,
}

module _ ⦃J : JsonLib⦄ where
  abbrev pub is_at : String → String → String → Checkpoint → Bool
  is_at thread ns id c =
      c.thread_id == thread && (c.checkpoint_namespace == ns && c.checkpoint_id == id)

  module _ (saver : StorageSaver MemoryStorage) (clock : StorageKey → ℕ)
      (in_memory : saver.storage ≡ memory_calls clock) (as_read : Checkpoint → Checkpoint)
      (laws : SaverInputs saver.texts saver.codec as_read) where
    -- What `put` writes when it does not fail.
    abbrev pub Wrote : Checkpoint → MemoryStorage → MemoryStorage → Type 0
    Wrote c s t =
        (key : StorageKey) × (pointer : StorageKey) × (payload : Payload) × (value : String)
        × (s1 : MemoryStorage) × (check_options saver s ≡ (s, proceeds tt))
        × (key_for saver.scope c.thread_id c.checkpoint_namespace c.checkpoint_id ≡ ok key)
        × (saver.codec.encode c ≡ ok payload)
        × (storage_value_from_payload saver.texts payload ≡ ok value)
        × (change (saver.storage.put key value inserting) s ≡ (s1, proceeds tt))
        × (latest_pointer_key_for saver.scope c.thread_id c.checkpoint_namespace ≡ ok pointer)
        × (change (saver.storage.put pointer c.checkpoint_id replacing) s1 ≡ (t, proceeds tt))

    pub put-Wrote :
        (c : Checkpoint) (s t : MemoryStorage) → put saver c s ≡ (t, proceeds tt) → Wrote c s t
    unfolding put put_pointer
    put-Wrote c s t e =
        let (a1, u1, checked, e1) = >>=-proceeds _ _ s t tt e in
        let (same, again) = check_options-ok saver s a1 s checked in
        let (u2, named, e2) = need-proceeds _ _ a1 t tt e1 in
        let (key, keyed, e3) = need-proceeds _ _ a1 t tt e2 in
        let (payload, encoded, e4) = need-proceeds _ _ a1 t tt e3 in
        let (value, written, e5) = need-proceeds _ _ a1 t tt e4 in
        let (s1, u6, first, e6) = >>=-proceeds _ _ a1 t tt e5 in
        let (pointer, pointed, e7) = need-proceeds _ _ s1 t tt e6 in
        (
          key,
          pointer,
          payload,
          value,
          s1,
          again,
          keyed,
          encoded,
          written,
          subst (λ x. change (saver.storage.put key value inserting) x ≡ (s1, proceeds tt))
              (sym same) first,
          pointed,
          e7,
        )

    is_at-parts :
        (c : Checkpoint) (thread ns id : String)
        → is_at thread ns id c ≡ true
        → (c.thread_id ≡ thread) × (c.checkpoint_namespace ≡ ns) × (c.checkpoint_id ≡ id)
    is_at-parts c thread ns id h = ground (
      arith,
      key_eq_iff c.thread_id thread,
      key_eq_iff c.checkpoint_namespace ns,
      key_eq_iff c.checkpoint_id id,
    )

    true-ne-false : true ≡ false → ⊥
    true-ne-false e = cc

    abbrev pub found : Result Checkpoint → Flow (Option Status) (Option Checkpoint)
    found (ok c) = proceeds (some c)
    found (err e) = stops (some e)

    -- What is fetched, from what the storage answers.
    abbrev pub outcome_of : Result (Option StorageItem) → Flow (Option Status) (Option Checkpoint)
    outcome_of (err e) = stops (some e)
    outcome_of (ok none) = proceeds none
    outcome_of (ok (some item)) = found (checkpoint_of saver.texts saver.codec item)

    module _ (equal : Json → Json → Bool) where
      decoded-found :
          (item : StorageItem) (x : MemoryStorage) (res : Result Checkpoint)
          → checkpoint_of saver.texts saver.codec item ≡ res
          → (decoded saver equal (some item) x).1
            ≡ found (checkpoint_of saver.texts saver.codec item)
      unfolding ◌>>=◌ pure attempt leave
      decoded-found item x (ok c) e = rw (e) refl
      decoded-found item x (err y) e = rw (e) refl

      looked :
          (key : StorageKey) (x : MemoryStorage)
          → ((look (saver.storage.get key) >>= decoded saver equal) x).1
            ≡ outcome_of (saver.storage.get key x)
      unfolding look ◌>>=◌ pure attempt leave
      looked key x = by_answer (saver.storage.get key x)
        where
          by_answer :
              (res : Result (Option StorageItem))
              → (on_flow (x, flow_of res) (decoded saver equal)).1 ≡ outcome_of res
          by_answer (err e) = refl
          by_answer (ok none) = refl
          by_answer (ok (some item)) =
              decoded-found item x (checkpoint_of saver.texts saver.codec item) refl

      pub fetch-outcome :
          (thread ns id : String) (key : StorageKey) (x : MemoryStorage)
          → check_options saver x ≡ (x, proceeds tt)
          → key_for saver.scope thread ns id ≡ ok key
          → (fetch saver equal thread ns id x).1 ≡ outcome_of (saver.storage.get key x)
      unfolding fetch
      fetch-outcome thread ns id key x checked keyed =
          ap (λ p. p.1)
            (>>=-ok (check_options saver) _ x x tt checked
              ∙ need-ok (key_for saver.scope thread ns id) _ x key keyed)
          ∙ looked key x

      pub key_for-ok :
          (scope thread ns id : String)
          → (thread == "") ≡ false
          → (id == "") ≡ false
          → (key : StorageKey) × (key_for scope thread ns id ≡ ok key)
      unfolding key_for key_prefix_for
      key_for-ok scope thread ns id h h' = (
        record {
          scope = scope;
          key =
              labelled (labelled (hex_encode thread) (labelled "/" (namespace_part ns)))
                (hex_encode id);
        },
        rw (h, h') refl,
      )

      -- Two keys are equal when the names are.
      key-test :
          (c : Checkpoint) (thread ns id : String) (key key' : StorageKey)
          → key_for saver.scope c.thread_id c.checkpoint_namespace c.checkpoint_id ≡ ok key
          → key_for saver.scope thread ns id ≡ ok key'
          → (key == key') ≡ is_at thread ns id c
      key-test c thread ns id key key' e e' = elim (Bool-cases (key == key')) [
        | inl same ↦
            let (a, b, d) =
              key_for-injective saver.scope c.thread_id thread c.checkpoint_namespace ns
                c.checkpoint_id id key' (e ∙ ap ok ((key_eq_iff key key').0 same)) e' in
            ground (
              arith,
              same,
              key_eq_iff c.thread_id thread,
              key_eq_iff c.checkpoint_namespace ns,
              key_eq_iff c.checkpoint_id id,
              a,
              b,
              d,
            )
        | inr other ↦ elim (Bool-cases (is_at thread ns id c)) [
          | inr away ↦ other ∙ sym away
          | inl at ↦ absurd (not_both key key' other (one_key key key' e e' at))
        ]
      ]
        where
          not_both : (k k' : StorageKey) → (k == k') ≡ false → k ≡ k' → ⊥
          not_both k k' h same = true-ne-false (sym ((key_eq_iff k k').1 same) ∙ h)

          one_key :
              (key key' : StorageKey)
              → key_for saver.scope c.thread_id c.checkpoint_namespace c.checkpoint_id ≡ ok key
              → key_for saver.scope thread ns id ≡ ok key'
              → is_at thread ns id c ≡ true
              → key ≡ key'
          one_key key key' e e' at =
              let (a, b, d) = is_at-parts c thread ns id at in
              ok-injective (sym e ∙ (λ i. key_for saver.scope (a i) (b i) (d i)) ∙ e')

      -- The options pass their check wherever they are checked.
      pub put-checked :
          (c : Checkpoint) (s t : MemoryStorage)
          → put saver c s ≡ (t, proceeds tt)
          → (u : Unit {0}) × (check_options saver s ≡ (s, proceeds tt))
            × ((x : MemoryStorage) → check_options saver x ≡ (x, proceeds tt))
      put-checked c s t e =
          let (_, _, _, _, _, checked, _, _, _, _, _, _) = put-Wrote c s t e in
          (tt, checked, λ x. (check_options-ok saver s s x checked).1)

      -- What the storage holds under a checkpoint's key after a put that does not fail.
      pub put-get :
          (c : Checkpoint) (s t : MemoryStorage) (thread ns id : String) (key' : StorageKey)
          → put saver c s ≡ (t, proceeds tt)
          → key_for saver.scope thread ns id ≡ ok key'
          → (item : StorageItem) × (payload : Payload) × (saver.codec.encode c ≡ ok payload)
            × (storage_value_from_payload saver.texts payload ≡ ok item.value)
            × (saver.storage.get key' t
                ≡ (if is_at thread ns id c then ok (some item) else saver.storage.get key' s))
      put-get c s t thread ns id key' e keyed' =
          let (
            key, pointer, payload, value, s1, checked, keyed, encoded, written, first, pointed,
            second,
          ) =
            put-Wrote c s t e in
          let (item, holds, got) =
            changed-item saver.storage clock key key' value inserting s s1 (sym in_memory) first in
          let (other, _, kept) =
            changed-item saver.storage clock pointer key' c.checkpoint_id replacing s1 t
              (sym in_memory) second in
          let apart : (pointer == key') ≡ false = elim (Bool-cases (pointer == key')) [
            | inl same ↦ absurd (
                pointer-ne-key saver.scope c.thread_id thread c.checkpoint_namespace ns id key'
                  (pointed ∙ ap ok ((key_eq_iff pointer key').0 same)) keyed')
            | inr no' ↦ no'
          ] in
          (
            item,
            payload,
            encoded,
            written ∙ ap ok (sym holds),
            kept
                ∙ skipped (pointer == key') _ _ apart
                ∙ got
                ∙ ap (λ b. if b then ok (some item) else saver.storage.get key' s)
                    (key-test c thread ns id key key' keyed keyed'),
          )
        where
          skipped :
              (b : Bool) (x y : Result (Option StorageItem)) → b ≡ false → (if b then x else y) ≡ y
          skipped b x y h = rw (h) refl
