-- ===== src/Run/Session/Frame.antt =====
-- What `put_checkpoint` leaves as it is.
use langgraph_cpp.Prelude.{ℕ, String, Bool, List, Result, ok, err}
use langgraph_cpp.Json.{JsonLib}
use langgraph_cpp.State.{Services}
use langgraph_cpp.Graph.Task.{CheckpointTask}
use langgraph_cpp.Checkpoint.Types.{Checkpoint, CheckpointWrite}
use langgraph_cpp.Run.Flow.Ensures.{
  Holds, Keeps, Ensures-leave, Keeps-attempt, Keeps-bind, Keeps-modify, Keeps-when, Keeps-read,
}
use langgraph_cpp.Run.Session.{
  GraphRun, Members, after_call, save, save_writes, store_checkpoint, put_checkpoint,
}

module _ ⦃J : JsonLib⦄ ⦃S : Services⦄ {σ : Type 0} (r : GraphRun σ)
    (P : List CheckpointTask → Type 0) where
  abbrev Framed : Members σ → Type 0
  Framed m = P m.next_tasks

  after_call-Framed :
      (m : Members σ) (p : σ × Result (Unit {0}))
      → Framed m
      → Holds (λ _. Framed) (λ _ _. Unit {0}) (after_call r m p)
  after_call-Framed m (t, ok u) h = h
  after_call-Framed m (t, err e) h = tt

  save-Framed : (c : Checkpoint) → Keeps Framed (λ _ _. Unit {0}) (save r c)
  unfolding save
  save-Framed c = record { at = λ m h. after_call-Framed m _ h }

  save_writes-Framed :
      (source : String) (c : Checkpoint) → Keeps Framed (λ _ _. Unit {0}) (save_writes r source c)
  unfolding save_writes
  save_writes-Framed source c = record { at = λ m h. after_call-Framed m _ h }

  store_checkpoint-Framed :
      (source : String) (require_event : Bool) (c : Checkpoint)
      → Keeps Framed (λ _ _. Unit {0}) (store_checkpoint r source require_event c)
  unfolding store_checkpoint
  store_checkpoint-Framed source require_event c =
      Keeps-bind _ _ (Keeps-when _ _ (save-Framed c)) λ u.
        Keeps-bind _ _ (Keeps-when _ _ (save_writes-Framed source c)) λ u.
          Keeps-bind _ _ (Keeps-modify _ (λ m h. h))
            λ u. Keeps-when _ _ (Keeps-attempt _ _ (λ e. Ensures-leave _ (λ m h. tt)))

  -- The next tasks of the run are as they were.
  pub put_checkpoint-Framed :
      (step : ℕ) (next : List CheckpointTask) (writes pending : List CheckpointWrite)
      (source : String) (terminal require_event : Bool)
      → Keeps Framed
          (λ _ _. Unit {0})
          (put_checkpoint r step next writes pending source terminal require_event)
  unfolding put_checkpoint
  put_checkpoint-Framed step next writes pending source terminal require_event =
      Keeps-bind _ _ (Keeps-read _)
        λ c. Keeps-when _ _ (store_checkpoint-Framed source require_event c)
