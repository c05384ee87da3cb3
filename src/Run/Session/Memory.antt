-- ===== src/Run/Session/Memory.antt =====
-- The saver in memory as the checkpointer of a run.
use langgraph_cpp.Prelude.{
  text_key, ◌∙◌, Result, ok, err, ◌≡◌, refl, sym, ap, subst, [], ◌∷◌, ◌++◌, stable_sort-Memᴰ,
}
use mathlib.Core.List.{Memᴰ}
use mathlib.Core.List.Memᴰ
use langgraph_cpp.Prelude.Map.{lookup, lookup-insert_self}
use langgraph_cpp.Json.{JsonLib}
use langgraph_cpp.Checkpoint.Types.{Checkpoint, CheckpointWriteSet}
use langgraph_cpp.Checkpoint.Saver.{InMemorySaver, history, history_of, comes_before, kept_or}
use langgraph_cpp.Checkpoint.Saver
use langgraph_cpp.Checkpoint.Saver.Lookup.{put-eq-ok, added, checkpoints-put_writes}
use langgraph_cpp.Run.Session.{CheckpointSaver}
use langgraph_cpp.Run.Session.Stored.{SaverLaws}

module _ ⦃J : JsonLib⦄ where
  abbrev pub memory_saver : CheckpointSaver InMemorySaver
  memory_saver = record {
    put = λ c s. kept_or s (Saver.put c s);
    put_writes = λ ws s. kept_or s (Saver.put_writes ws s);
  }

  abbrev IsHeld : InMemorySaver → Checkpoint → Type 0
  IsHeld s c = Memᴰ c (history s c.thread_id)

  IsHeld-put :
      (c : Checkpoint) (s t : InMemorySaver) (res : Result InMemorySaver)
      → Saver.put c s ≡ res
      → kept_or s res ≡ (t, ok tt)
      → IsHeld t c
  IsHeld-put c s t (ok t') e h =
      subst (λ x. IsHeld x c) ((put-eq-ok c s t' e).1 ∙ ap (λ p. p.0) h)
        (subst (λ o. Memᴰ c (history_of o))
          (sym (lookup-insert_self c.thread_id (added s c) s.checkpoints))
          (stable_sort-Memᴰ comes_before c (history s c.thread_id ++ c ∷ [])
            (Memᴰ.append_right (history s c.thread_id) (Memᴰ.head refl))))
  IsHeld-put c s t (err x) e h = cc

  IsHeld-put_writes :
      (c : Checkpoint) (ws : CheckpointWriteSet) (s : InMemorySaver) (res : Result InMemorySaver)
      → Saver.put_writes ws s ≡ res
      → IsHeld s c
      → IsHeld (kept_or s res).0 c
  IsHeld-put_writes c ws s (ok t) e h =
      subst (λ x. Memᴰ c (history_of (lookup c.thread_id x))) (checkpoints-put_writes ws s t e) h
  IsHeld-put_writes c ws s (err x) e h = h

  pub memory_laws : SaverLaws memory_saver
  memory_laws = record {
    Has = IsHeld;
    put-Has = λ c s t e. IsHeld-put c s t _ refl e;
    put_writes-Has = λ c ws s h. IsHeld-put_writes c ws s _ refl h;
  }
