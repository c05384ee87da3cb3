-- ===== src/Checkpoint/Saver/Lookup.antt =====
-- `put` against the reading operations, `find_checkpoint` and `get_tuple`.
use langgraph_cpp.Prelude.{
  String, ◌≡◌, refl, sym, ◌∙◌, ap, subst, true, false, some, List, [], ◌∷◌, ◌++◌, ok, >>=-eq-ok,
  ok-injective, fail_if-eq-ok, ◌==◌, text_key, nat_key, if◌then◌else◌, ◌&&◌, any, is_empty, inl,
  inr, Bool-cases, find_if, stable_sort, AtMostOne, IsOrdered, stable_sort-AtMostOne,
  find_if-stable_sort, append-AtMostOne, find_if-append, find_if-append_other,
  stable_sort-IsOrdered, arith, key_eq_iff,
}
use langgraph_cpp.Prelude.Map.{lookup, insert, lookup-insert}
use langgraph_cpp.Json.{JsonLib}
use langgraph_cpp.Checkpoint.Types.{
  Checkpoint, CheckpointWrite, CheckpointWriteSet, key_of, normalize_write_set,
  validate_checkpoint_for_store, validate_checkpoint_query, query_at,
}
use langgraph_cpp.Checkpoint.Saver.{
  InMemorySaver, new_saver, history, history_of, same_id, comes_before, put, put_writes,
  find_checkpoint, get_tuple, tuple_if, tuple_of, with_pending, writes_of,
}

module _ ⦃J : JsonLib⦄ where
  -- Every thread's history is ordered by step and moment, and no checkpoint's name is taken twice.
  abbrev pub IsHistory : List Checkpoint → Type 0
  IsHistory cs =
      IsOrdered comes_before cs × ((ns id : String) → AtMostOne comes_before (same_id ns id) cs)

  abbrev pub IsValid : InMemorySaver → Type 0
  IsValid s = (thread : String) → IsHistory (history s thread)

  comes_before_flip : (a b : Checkpoint) → comes_before a b ≡ true → comes_before b a ≡ false
  unfolding comes_before
  comes_before_flip a b h = ground arith

  comes_before_trans :
      (a b c : Checkpoint)
      → comes_before b a ≡ false
      → comes_before c b ≡ false
      → comes_before c a ≡ false
  unfolding comes_before
  comes_before_trans a b c h k = ground arith

  -- The history that `put` stores.
  abbrev pub added : InMemorySaver → Checkpoint → List Checkpoint
  added s c = stable_sort comes_before (history s c.thread_id ++ c ∷ [])

  -- The saver that `put` returns when it does not refuse.
  pub put-eq-ok :
      (c : Checkpoint) (s s' : InMemorySaver)
      → put c s ≡ ok s'
      → (any (same_id c.checkpoint_namespace c.checkpoint_id) (history s c.thread_id) ≡ false)
        × (record { checkpoints = insert c.thread_id (added s c) s.checkpoints; writes = s.writes }
            ≡ s')
  unfolding put
  put-eq-ok c s s' e =
      let (u, valid, e2) = >>=-eq-ok (validate_checkpoint_for_store c) _ e in
      let (fresh, e3) = fail_if-eq-ok _ _ _ _ e2 in (fresh, ok-injective e3)

  -- Pending writes leave the checkpoints alone.
  pub checkpoints-put_writes :
      (set : CheckpointWriteSet) (s s' : InMemorySaver)
      → put_writes set s ≡ ok s'
      → s.checkpoints ≡ s'.checkpoints
  unfolding put_writes
  checkpoints-put_writes set s s' e =
      let (ws, valid, e2) = >>=-eq-ok (normalize_write_set set) _ e in
      ap (λ x. x.checkpoints) (ok-injective e2)

  pub history-put :
      (c : Checkpoint) (s s' : InMemorySaver) (thread : String)
      → put c s ≡ ok s'
      → history s' thread ≡ (if c.thread_id == thread then added s c else history s thread)
  history-put c s s' thread e =
      sym (ap (λ x. history x thread) (put-eq-ok c s s' e).1)
      ∙ ap history_of (lookup-insert c.thread_id thread (added s c) s.checkpoints)
      ∙ ground arith

  same_name :
      (c : Checkpoint) (ns id : String) (cs : List Checkpoint)
      → any (same_id c.checkpoint_namespace c.checkpoint_id) cs ≡ false
      → same_id ns id c && any (same_id ns id) cs ≡ false
  same_name c ns id cs fresh = elim (Bool-cases (same_id ns id c)) [
    | inl same ↦
        let a : c.checkpoint_namespace ≡ ns = (key_eq_iff _ _).0 (ground arith) in
        let b : c.checkpoint_id ≡ id = (key_eq_iff _ _).0 (ground arith) in
        rw same (
          subst (λ x. any (same_id x id) cs ≡ false) a
            (subst (λ x. any (same_id c.checkpoint_namespace x) cs ≡ false) b fresh))
    | inr other ↦ rw other refl
  ]

  -- A new saver is valid, and `put` keeps a saver valid.
  pub new_saver-IsValid : IsValid new_saver
  unfolding lookup
  new_saver-IsValid thread = (tt, λ ns id. tt)

  pub added-IsHistory :
      (c : Checkpoint) (s : InMemorySaver)
      → any (same_id c.checkpoint_namespace c.checkpoint_id) (history s c.thread_id) ≡ false
      → IsValid s
      → IsHistory (added s c)
  added-IsHistory c s fresh v = (
    stable_sort-IsOrdered comes_before comes_before_flip comes_before_trans
        (history s c.thread_id ++ c ∷ []),
    λ ns id. stable_sort-AtMostOne comes_before (same_id ns id) (history s c.thread_id ++ c ∷ []) (
        append-AtMostOne comes_before (same_id ns id) (history s c.thread_id) c
          (same_name c ns id (history s c.thread_id) fresh) ((v c.thread_id).1 ns id)),
  )

  -- Where `put` does not refuse, every thread's history is again in the order of steps and
  -- moments, with no two checkpoints of one namespace and id.
  pub put-IsValid :
      (c : Checkpoint) (s s' : InMemorySaver) → IsValid s → put c s ≡ ok s' → IsValid s'
  put-IsValid c s s' v e thread =
      rw (history-put c s s' thread e) (elim (Bool-cases (c.thread_id == thread)) [
        | inl same ↦ rw same (added-IsHistory c s (put-eq-ok c s s' e).0 v)
        | inr other ↦ rw other (v thread)
      ])

  find-added :
      (c : Checkpoint) (s : InMemorySaver) (ns id : String)
      → any (same_id c.checkpoint_namespace c.checkpoint_id) (history s c.thread_id) ≡ false
      → IsValid s
      → find_if (same_id ns id) (added s c)
        ≡ (if same_id ns id c then some c else find_if (same_id ns id) (history s c.thread_id))
  find-added c s ns id fresh v =
      find_if-stable_sort comes_before (same_id ns id) (history s c.thread_id ++ c ∷ []) (
        append-AtMostOne comes_before (same_id ns id) (history s c.thread_id) c
          (same_name c ns id (history s c.thread_id) fresh) ((v c.thread_id).1 ns id))
      ∙ (elim (Bool-cases (same_id ns id c)) [
        | inl same ↦ rw same (
            find_if-append (same_id ns id) (history s c.thread_id) c
              (ground (arith, same_name c ns id (history s c.thread_id) fresh))
            ∙ rw same refl)
        | inr other ↦
            rw other (find_if-append_other (same_id ns id) (history s c.thread_id) c other)
      ])

  -- After `put` of a checkpoint in a valid saver, a query for a thread, a namespace and an id finds
  -- that checkpoint when they are its own, and otherwise what it found before.
  pub find_checkpoint-put :
      (c : Checkpoint) (s s' : InMemorySaver) (thread ns id : String)
      → IsValid s
      → put c s ≡ ok s'
      → find_checkpoint (query_at thread id ns) (history s' thread) ≡ (
          if c.thread_id == thread && same_id ns id c
          then some c
          else find_checkpoint (query_at thread id ns) (history s thread))
  unfolding find_checkpoint query_at
  find_checkpoint-put c s s' thread ns id v e =
      rw (history-put c s s' thread e) (elim (Bool-cases (c.thread_id == thread)) [
        | inl same ↦ rw same (
            find-added c s ns id (put-eq-ok c s s' e).0 v
            ∙ ap (λ t. if same_id ns id c then some c else find_if (same_id ns id) (history s t))
                ((key_eq_iff c.thread_id thread).0 same))
        | inr other ↦ rw other refl
      ])

  -- `put` takes only a checkpoint with a thread and an id.
  pub put-named :
      (c : Checkpoint) (s s' : InMemorySaver)
      → put c s ≡ ok s'
      → ((c.thread_id == "") ≡ false) × ((c.checkpoint_id == "") ≡ false)
  unfolding put validate_checkpoint_for_store
  put-named c s s' e = ground arith

  -- The pending writes of a checkpoint, or those stored for it when it has none of its own.
  abbrev pub pending_of : InMemorySaver → Checkpoint → List CheckpointWrite
  pending_of s c =
      if is_empty c.pending_writes then writes_of (lookup (key_of c) s.writes) else c.pending_writes

  -- After `put` of a checkpoint in a valid saver, `get_tuple` by its thread, namespace and id reads
  -- back that very checkpoint but for its pending writes, which are those stored for it when it has
  -- none of its own.
  pub get_tuple-put :
      (c : Checkpoint) (s s' : InMemorySaver)
      → IsValid s
      → put c s ≡ ok s'
      → get_tuple (query_at c.thread_id c.checkpoint_id c.checkpoint_namespace) s'
        ≡ ok (
            some (record {
              checkpoint = record c { pending_writes = pending_of s c };
              pending_writes = pending_of s c;
            }))
  unfolding get_tuple tuple_if tuple_of with_pending validate_checkpoint_query query_at
  get_tuple-put c s s' v e =
      let (thread, id) = put-named c s s' e in
      let found =
        find_checkpoint-put c s s' c.thread_id c.checkpoint_namespace c.checkpoint_id v e in
      let own : (c.thread_id == c.thread_id && same_id c.checkpoint_namespace c.checkpoint_id c)
          ≡ true =
        ground (
          arith,
          key_eq_iff c.thread_id c.thread_id,
          key_eq_iff c.checkpoint_namespace c.checkpoint_namespace,
          key_eq_iff c.checkpoint_id c.checkpoint_id,
        ) in
      let kept : s.writes ≡ s'.writes = ap (λ x. x.writes) (put-eq-ok c s s' e).1 in
      rw (thread, id, found, own, sym kept) refl
