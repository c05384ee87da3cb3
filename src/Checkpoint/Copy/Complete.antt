-- ===== src/Checkpoint/Copy/Complete.antt =====
-- What a copy with the saver in memory holds.
use langgraph_cpp.Prelude.{
  String, ◌≡◌, refl, sym, ap, ◌∙◌, subst, Bool, true, false, List, [], ◌∷◌, ◌++◌, Result, ok, err,
  text_key, if◌then◌else◌, is_empty, stable_sort-Memᴰ,
}
use mathlib.Core.List.{Memᴰ}
use mathlib.Core.List.Memᴰ
use langgraph_cpp.Prelude.Map.{lookup, lookup-insert_self}
use langgraph_cpp.Json.{JsonLib, Json}
use langgraph_cpp.Checkpoint.Types.{
  Checkpoint, CheckpointTuple, CheckpointWriteSet, CheckpointMaintenanceResult,
}
use langgraph_cpp.Checkpoint.Saver
use langgraph_cpp.Checkpoint.Saver.{
  InMemorySaver, history, history_of, delete_thread, kept_or, comes_before,
}
use langgraph_cpp.Checkpoint.Saver.Lookup.{checkpoints-put_writes, added, put-eq-ok}
use langgraph_cpp.Checkpoint.Saver.Maintain.{list}
use langgraph_cpp.Checkpoint.Copy.{
  CheckpointCopyThreadOptions, after_call, copied, store_copied, copy_each, copy_listed,
  copy_thread_with, copy_list_options, copied_writes, rewrite_checkpoint_for_copy,
}
use langgraph_cpp.Checkpoint.Copy.Same.{moved, copied-moved}
use langgraph_cpp.Checkpoint.Copy.Frame.{memory_copies}

module _ ⦃J : JsonLib⦄ where
  after_call-eq-ok :
      {A : Type 0} (call : InMemorySaver × Result (Unit {0}))
      (f : InMemorySaver → InMemorySaver × Result A) (t : InMemorySaver) (a : A)
      → after_call call f ≡ (t, ok a)
      → (s : InMemorySaver) × (call ≡ (s, ok tt)) × (f s ≡ (t, ok a))
  unfolding after_call
  after_call-eq-ok (s, ok u) f t a h = (s, refl, h)
  after_call-eq-ok (s, err e) f t a h = cc

  abbrev IsHeld : String → Checkpoint → InMemorySaver → Type 0
  IsHeld thread c s = Memᴰ c (history s thread)

  after_call-IsHeld :
      {A : Type 0} (thread : String) (c : Checkpoint) (call : InMemorySaver × Result (Unit {0}))
      (f : InMemorySaver → InMemorySaver × Result A)
      → IsHeld thread c call.0
      → ((s : InMemorySaver) → IsHeld thread c s → IsHeld thread c (f s).0)
      → IsHeld thread c (after_call call f).0
  unfolding after_call
  after_call-IsHeld thread c (s, ok u) f h k = k s h
  after_call-IsHeld thread c (s, err e) f h k = h

  stored-IsHeld :
      (c d : Checkpoint) (s t : InMemorySaver)
      → Saver.put c s ≡ ok t
      → Memᴰ d (history s c.thread_id ++ c ∷ [])
      → IsHeld c.thread_id d t
  stored-IsHeld c d s t e h =
      subst (λ x. IsHeld c.thread_id d x) (put-eq-ok c s t e).1
        (subst (λ o. Memᴰ d (history_of o))
          (sym (lookup-insert_self c.thread_id (added s c) s.checkpoints))
          (stable_sort-Memᴰ comes_before d (history s c.thread_id ++ c ∷ []) h))

  put-IsHeld :
      (c d : Checkpoint) (s : InMemorySaver) (res : Result InMemorySaver)
      → Saver.put c s ≡ res
      → IsHeld c.thread_id d s
      → IsHeld c.thread_id d (kept_or s res).0
  put-IsHeld c d s (ok t) e h = stored-IsHeld c d s t e (Memᴰ.append_left (c ∷ []) h)
  put-IsHeld c d s (err x) e h = h

  put-IsHeld_self :
      (c : Checkpoint) (s t : InMemorySaver) (res : Result InMemorySaver)
      → Saver.put c s ≡ res
      → kept_or s res ≡ (t, ok tt)
      → IsHeld c.thread_id c t
  put-IsHeld_self c s t (ok t') e h =
      subst (λ x. IsHeld c.thread_id c x) (ap (λ p. p.0) h)
        (stored-IsHeld c c s t' e (Memᴰ.append_right (history s c.thread_id) (Memᴰ.head refl)))
  put-IsHeld_self c s t (err x) e h = cc

  put_writes-IsHeld :
      (thread : String) (d : Checkpoint) (ws : CheckpointWriteSet) (s : InMemorySaver)
      (res : Result InMemorySaver)
      → Saver.put_writes ws s ≡ res
      → IsHeld thread d s
      → IsHeld thread d (kept_or s res).0
  put_writes-IsHeld thread d ws s (ok t) e h =
      subst (λ x. Memᴰ d (history_of (lookup thread x))) (checkpoints-put_writes ws s t e) h
  put_writes-IsHeld thread d ws s (err x) e h = h

  module _ (equal : Json → Json → Bool) (o : CheckpointCopyThreadOptions) (d : Checkpoint) where
    writes-IsHeld :
        (t : CheckpointTuple) (s : InMemorySaver) (b : Bool)
        → IsHeld o.target_thread_id d s
        → IsHeld o.target_thread_id d
            (if b then (s, ok tt) else (memory_copies equal).put_writes (copied_writes o t) s).0
    writes-IsHeld t s true h = h
    writes-IsHeld t s false h =
        put_writes-IsHeld o.target_thread_id d (copied_writes o t) s _ refl h

    store_copied-IsHeld :
        (t : CheckpointTuple) (s : InMemorySaver)
        → IsHeld o.target_thread_id d s
        → IsHeld o.target_thread_id d (store_copied (memory_copies equal) o (copied o t) s).0
    unfolding store_copied copied rewrite_checkpoint_for_copy
    store_copied-IsHeld t s h =
        after_call-IsHeld o.target_thread_id d _ _ (put-IsHeld (copied o t).checkpoint d s _ refl h)
          (λ s h. writes-IsHeld (copied o t) s (is_empty (copied o t).pending_writes) h)

    copy_each-IsHeld :
        (ts : List CheckpointTuple) (res : CheckpointMaintenanceResult) (s : InMemorySaver)
        → IsHeld o.target_thread_id d s
        → IsHeld o.target_thread_id d (copy_each (memory_copies equal) o ts res s).0
    unfolding copy_each
    copy_each-IsHeld [] res s h = h
    copy_each-IsHeld (t ∷ ts) res s h =
        after_call-IsHeld o.target_thread_id d _ _ (store_copied-IsHeld t s h)
          (copy_each-IsHeld ts _)

  module _ (equal : Json → Json → Bool) (o : CheckpointCopyThreadOptions) where
    store_copied-holds :
        (t : CheckpointTuple) (s s' : InMemorySaver)
        → store_copied (memory_copies equal) o (copied o t) s ≡ (s', ok tt)
        → IsHeld o.target_thread_id (copied o t).checkpoint s'
    unfolding store_copied copied rewrite_checkpoint_for_copy
    store_copied-holds t s s' e =
        let (s1, put_ok, rest) = after_call-eq-ok _ _ s' tt e in
        subst (λ p. IsHeld o.target_thread_id (copied o t).checkpoint p.0) rest
          (writes-IsHeld equal o (copied o t).checkpoint (copied o t) s1
            (is_empty (copied o t).pending_writes)
            (put-IsHeld_self (copied o t).checkpoint s s1 _ refl put_ok))

    copy_each-holds :
        (ts : List CheckpointTuple) (res res' : CheckpointMaintenanceResult) (s s' : InMemorySaver)
        (t : CheckpointTuple)
        → copy_each (memory_copies equal) o ts res s ≡ (s', ok res')
        → Memᴰ t ts
        → IsHeld o.target_thread_id (copied o t).checkpoint s'
    unfolding copy_each
    copy_each-holds [] res res' s s' t e m = elim m [ ]
    copy_each-holds (u ∷ ts) res res' s s' t e (Memᴰ.head same) =
        let (s1, stored, rest) = after_call-eq-ok _ _ s' res' e in
        subst (λ p. IsHeld o.target_thread_id (copied o t).checkpoint p.0) rest
          (copy_each-IsHeld equal o (copied o t).checkpoint ts _ s1 (
            store_copied-holds t s s1 (
              subst (λ x. store_copied (memory_copies equal) o (copied o x) s ≡ (s1, ok tt))
                (sym same) stored)))
    copy_each-holds (u ∷ ts) res res' s s' t e (Memᴰ.tail m) =
        let (s1, stored, rest) = after_call-eq-ok _ _ s' res' e in
        copy_each-holds ts _ res' s1 s' t rest m

    abbrev cleared : InMemorySaver → InMemorySaver
    cleared s = if o.overwrite_target then delete_thread o.target_thread_id s else s

    copied-held :
        (s s' : InMemorySaver) (res : CheckpointMaintenanceResult) (ts : List CheckpointTuple)
        (t : CheckpointTuple)
        → copy_thread_with (memory_copies equal) o s ≡ (s', ok res)
        → list equal (copy_list_options o) (cleared s) ≡ ok ts
        → Memᴰ t ts
        → Memᴰ (copied o t).checkpoint (history s' o.target_thread_id)
    unfolding copy_thread_with copy_listed
    copied-held s s' res ts t e l m =
        let (s1, valid, e1) = after_call-eq-ok _ _ s' res e in
        let (s2, gone, e2) = after_call-eq-ok _ _ s' res e1 in
        let here : s2 ≡ cleared s =
          sym (at s1 s2 o.overwrite_target gone) ∙ ap cleared (sym (ap (λ p. p.0) valid)) in
        copy_each-holds ts _ res s2 s' t
          (sym (
              ap (λ r. copy_listed (memory_copies equal) o r s2)
                (ap (λ x. list equal (copy_list_options o) x) here ∙ l))
            ∙ e2)
          m
      where
        at :
            (s1 s2 : InMemorySaver) (b : Bool)
            → (if b then (memory_copies equal).delete_thread o.target_thread_id s1 else (s1, ok tt))
              ≡ (s2, ok tt)
            → (if b then delete_thread o.target_thread_id s1 else s1) ≡ s2
        at s1 s2 true h = ap (λ p. p.0) h
        at s1 s2 false h = ap (λ p. p.0) h

    -- When a copy with the saver in memory succeeds, the target holds, for every checkpoint that the
    -- saver lists for the source once the target is cleared where that is asked for, the same
    -- checkpoint in the target thread and, where one is given, the target namespace, its tasks and
    -- writes included; when it has no pending writes of its own, those listed beside it are its.
    pub copy_thread_with-holds :
        (s s' : InMemorySaver) (res : CheckpointMaintenanceResult) (ts : List CheckpointTuple)
        (t : CheckpointTuple)
        → copy_thread_with (memory_copies equal) o s ≡ (s', ok res)
        → list equal (copy_list_options o) (cleared s) ≡ ok ts
        → Memᴰ t ts
        → Memᴰ (moved o t) (history s' o.target_thread_id)
    copy_thread_with-holds s s' res ts t e l m =
        subst (λ c. Memᴰ c (history s' o.target_thread_id)) (copied-moved o t)
          (copied-held s s' res ts t e l m)
