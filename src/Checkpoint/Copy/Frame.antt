-- ===== src/Checkpoint/Copy/Frame.antt =====
-- Copying with the saver in memory.
use langgraph_cpp.Prelude.{
  String, ◌≡◌, refl, sym, ap, ◌∙◌, Bool, true, false, List, [], ◌∷◌, Result, ok, err, ◌==◌,
  text_key, if◌then◌else◌, is_empty, arith, Bool-cases, inl, inr,
}
use langgraph_cpp.Prelude.Map.{lookup, lookup-erase}
use langgraph_cpp.Json.{JsonLib, Json}
use langgraph_cpp.Checkpoint.Types.{
  Checkpoint, CheckpointTuple, CheckpointWriteSet, CheckpointMaintenanceResult,
}
use langgraph_cpp.Checkpoint.Saver
use langgraph_cpp.Checkpoint.Saver.{InMemorySaver, history, history_of, delete_thread, kept_or}
use langgraph_cpp.Checkpoint.Saver.Lookup.{history-put, checkpoints-put_writes}
use langgraph_cpp.Checkpoint.Saver.Maintain.{list}
use langgraph_cpp.Checkpoint.Copy.{
  CopySaver, CheckpointCopyThreadOptions, after_call, copied, store_copied, copy_each, copy_listed,
  copy_thread_with, validate_copy_options, copy_list_options, rewrite_checkpoint_for_copy,
  copied_writes,
}

module _ ⦃J : JsonLib⦄ where
  abbrev pub memory_copies : (Json → Json → Bool) → CopySaver InMemorySaver
  memory_copies equal = record {
    list = list equal;
    put = λ c s. kept_or s (Saver.put c s);
    put_writes = λ ws s. kept_or s (Saver.put_writes ws s);
    delete_thread = λ thread s. (delete_thread thread s, ok tt);
  }

  module _ (thread : String) where
    -- The checkpoints of the thread stay.
    abbrev Keeps : {A : Type 0} → (InMemorySaver → InMemorySaver × Result A) → Type 0
    Keeps f = (s : InMemorySaver) → history (f s).0 thread ≡ history s thread

    after_call-Keeps :
        {A : Type 0} (s : InMemorySaver) (call : InMemorySaver × Result (Unit {0}))
        (f : InMemorySaver → InMemorySaver × Result A)
        → history call.0 thread ≡ history s thread
        → Keeps f
        → history (after_call call f).0 thread ≡ history s thread
    unfolding after_call
    after_call-Keeps s (t, ok u) f h k = k t ∙ h
    after_call-Keeps s (t, err e) f h k = h

    put-Keeps :
        (c : Checkpoint) (s : InMemorySaver) (res : Result InMemorySaver)
        → (c.thread_id == thread) ≡ false
        → Saver.put c s ≡ res
        → history (kept_or s res).0 thread ≡ history s thread
    put-Keeps c s (ok t) apart e = history-put c s t thread e ∙ rw (apart) refl
    put-Keeps c s (err x) apart e = refl

    put_writes-Keeps :
        (ws : CheckpointWriteSet) (s : InMemorySaver) (res : Result InMemorySaver)
        → Saver.put_writes ws s ≡ res
        → history (kept_or s res).0 thread ≡ history s thread
    put_writes-Keeps ws s (ok t) e =
        sym (ap (λ x. history_of (lookup thread x)) (checkpoints-put_writes ws s t e))
    put_writes-Keeps ws s (err x) e = refl

    delete_thread-Keeps :
        (gone : String) (s : InMemorySaver)
        → (gone == thread) ≡ false
        → history (delete_thread gone s) thread ≡ history s thread
    unfolding delete_thread
    delete_thread-Keeps gone s apart =
        ap history_of (lookup-erase gone thread s.checkpoints) ∙ ground (arith, apart)

    module _ (equal : Json → Json → Bool) (o : CheckpointCopyThreadOptions)
        (apart : (o.target_thread_id == thread) ≡ false) where
      store_copied-Keeps :
          (t : CheckpointTuple) → Keeps (store_copied (memory_copies equal) o (copied o t))
      unfolding store_copied copied rewrite_checkpoint_for_copy
      store_copied-Keeps t s = after_call-Keeps s _ _ (put-Keeps _ s _ apart refl) (λ s.
          elim (Bool-cases (is_empty (copied o t).pending_writes)) [
            | inl e ↦ rw (e) refl
            | inr e ↦ rw (e) (put_writes-Keeps (copied_writes o (copied o t)) s _ refl)
          ])

      copy_each-Keeps :
          (ts : List CheckpointTuple) (res : CheckpointMaintenanceResult)
          → Keeps (copy_each (memory_copies equal) o ts res)
      unfolding copy_each
      copy_each-Keeps [] res s = refl
      copy_each-Keeps (t ∷ ts) res s =
          after_call-Keeps s _ _ (store_copied-Keeps t s) (copy_each-Keeps ts _)

      copy_listed-Keeps :
          (listed : Result (List CheckpointTuple))
          → Keeps (copy_listed (memory_copies equal) o listed)
      unfolding copy_listed
      copy_listed-Keeps (ok ts) s = copy_each-Keeps ts _ s
      copy_listed-Keeps (err e) s = refl

      -- Copying with the saver in memory leaves the checkpoints of every thread other than the
      -- target, also when it fails half-way.
      pub copy_thread_with-keeps :
          (s : InMemorySaver)
          → history (copy_thread_with (memory_copies equal) o s).0 thread ≡ history s thread
      unfolding copy_thread_with
      copy_thread_with-keeps s =
          after_call-Keeps s (s, validate_copy_options o) _ refl
            (λ s.
              after_call-Keeps s _ _ (cleared s o.overwrite_target)
                (λ s. copy_listed-Keeps (list equal (copy_list_options o) s) s))
        where
          cleared :
              (s : InMemorySaver) (b : Bool)
              → history
                  (if b
                    then (memory_copies equal).delete_thread o.target_thread_id s
                    else (s, ok tt)).0
                  thread
                ≡ history s thread
          cleared s true = delete_thread-Keeps o.target_thread_id s apart
          cleared s false = refl
