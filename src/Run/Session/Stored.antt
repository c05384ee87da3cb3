-- ===== src/Run/Session/Stored.antt =====
-- What a checkpointer holds after `put_checkpoint` and `fail_run`.
use langgraph_cpp.Prelude.{
  ℕ, String, Bool, true, false, some, List, Result, ok, err, Status, ◌≡◌, refl, subst, arith,
  ok-injective,
}
use langgraph_cpp.Json.{JsonLib}
use langgraph_cpp.State.{Services, State}
use langgraph_cpp.Graph.Task.{CheckpointTask}
use langgraph_cpp.Checkpoint.Types.{Checkpoint, CheckpointWrite, CheckpointWriteSet}
use langgraph_cpp.Run.Flow.Ensures.{
  Holds, Ensures, Keeps, Ensures-bind, Ensures-leave, Ensures-attempt, Ensures-read, Ensures-modify,
  Ensures-when, Ensures-weaken,
}
use langgraph_cpp.Run.Session.{
  GraphRun, Members, RunResult, CheckpointSaver, should_store, new_checkpoint, save, save_writes,
  after_call, store_checkpoint, put_checkpoint, store_failure, fail_run, return_result, result_of,
}

-- What a checkpointer promises: it holds a checkpoint that it has taken, and goes on holding it
-- when writes come in.
pub record SaverLaws ⦃J : JsonLib⦄ {σ : Type 0} (w : CheckpointSaver σ) : Type 1 where
  pub Has : σ → Checkpoint → Type 0
  pub put-Has : (c : Checkpoint) (s t : σ) → w.put c s ≡ (t, ok tt) → Has t c
  pub put_writes-Has :
      (c : Checkpoint) (ws : CheckpointWriteSet) (s : σ) → Has s c → Has (w.put_writes ws s).0 c

module _ ⦃J : JsonLib⦄ ⦃S : Services⦄ {σ : Type 0} (r : GraphRun σ)
    (laws : SaverLaws r.around.saver) (has : r.options.has_checkpointer ≡ true) where
  -- The checkpoint that the next one will name as its parent holds this state.
  abbrev pub HasState : Members σ → State → Type 0
  HasState m state =
      (c : Checkpoint) × laws.Has m.stored c
      × (c.state ≡ state)
      × (m.parent_checkpoint_id ≡ some c.checkpoint_id)

  abbrev pub Stored : Members σ → Type 0
  Stored m = HasState m m.state

  -- A run that returns a result has stored its state.
  unfoldable pub Returned : Members σ → Result RunResult → Type 0
  Returned m res = (v : RunResult) → res ≡ ok v → HasState m v.state

  abbrev Holding : Checkpoint → Members σ → Type 0
  Holding c m = laws.Has m.stored c × (c.state ≡ m.state)

  after_put :
      (c : Checkpoint) (m : Members σ) (p : σ × Result (Unit {0}))
      → r.around.saver.put c m.stored ≡ p
      → c.state ≡ m.state
      → Holds (λ _. Holding c) Returned (after_call r m p)
  unfolding Returned
  after_put c m (t, ok u) e h = (laws.put-Has c m.stored t e, h)
  after_put c m (t, err s) e h = λ v k. cc

  after_put_writes :
      (c : Checkpoint) (m : Members σ) (p : σ × Result (Unit {0}))
      → laws.Has p.0 c
      → c.state ≡ m.state
      → Holds (λ _. Holding c) Returned (after_call r m p)
  unfolding Returned
  after_put_writes c m (t, ok u) k h = (k, h)
  after_put_writes c m (t, err s) k h = λ v e. cc

  save-Holding :
      (c : Checkpoint) → Ensures (λ m. c.state ≡ m.state) (λ _. Holding c) Returned (save r c)
  unfolding Returned save
  save-Holding c = record { at = λ m h. after_put c m _ refl h }

  save_writes-Holding :
      (source : String) (c : Checkpoint) → Keeps (Holding c) Returned (save_writes r source c)
  unfolding Returned save_writes
  save_writes-Holding source c = record {
    at = λ m h. after_put_writes c m _ (laws.put_writes-Has c _ m.stored h.0) h.1;
  }

  store_checkpoint-Stored :
      (source : String) (require_event : Bool) (c : Checkpoint)
      → Ensures
          (λ m. c.state ≡ m.state)
          (λ _. Stored)
          Returned
          (store_checkpoint r source require_event c)
  unfolding Returned store_checkpoint
  store_checkpoint-Stored source require_event c =
      Ensures-bind (λ _. Holding c) _ _ (Ensures-when _ _ (λ e. save-Holding c) (λ e. absurd cc))
        λ _.
          Ensures-bind (λ _. Holding c) _ _
            (Ensures-when _ _ (λ e. save_writes-Holding source c) (λ e m h. h))
            λ _.
              Ensures-bind (λ _. Stored) _ _ (Ensures-modify _ (λ m h. (c, h.0, h.1, refl)))
                λ _.
                  Ensures-when _ _
                    (λ e. Ensures-attempt _ _ (λ u k m h. h) (λ s. Ensures-leave _ (λ m h v k. cc)))
                    (λ e m h. h)

  pub put_checkpoint-Stored :
      {P : Members σ → Type 0} (step : ℕ) (next : List CheckpointTask)
      (writes pending : List CheckpointWrite) (source : String) (terminal require_event : Bool)
      → should_store r source terminal ≡ true
      → Ensures P
          (λ _. Stored)
          Returned
          (put_checkpoint r step next writes pending source terminal require_event)
  unfolding Returned put_checkpoint new_checkpoint
  put_checkpoint-Stored step next writes pending source terminal require_event e =
      Ensures-bind (λ c m. c.state ≡ m.state) _ _ (Ensures-read _ (λ m h. refl))
        λ c. Ensures-when _ _ (λ k. store_checkpoint-Stored source require_event c) (λ k. absurd cc)

  pub put_checkpoint-Returned :
      {P : Members σ → Type 0} (step : ℕ) (next : List CheckpointTask)
      (writes pending : List CheckpointWrite) (source : String) (terminal require_event : Bool)
      → Ensures P
          (λ _ _. Unit {0})
          Returned
          (put_checkpoint r step next writes pending source terminal require_event)
  unfolding Returned put_checkpoint new_checkpoint
  put_checkpoint-Returned step next writes pending source terminal require_event =
      Ensures-bind (λ c m. c.state ≡ m.state) _ _ (Ensures-read _ (λ m h. refl))
        λ c.
          Ensures-when _ _
            (λ k. Ensures-weaken _ (λ u m h. tt) (store_checkpoint-Stored source require_event c))
            (λ k m h. tt)

  -- A checkpoint with which a run ends is stored whatever the durability.
  pub should_store-terminal : (source : String) → should_store r source true ≡ true
  unfolding should_store
  should_store-terminal source = ground arith

  pub return_result-Stored :
      {A : Type 0} {N : A → Members σ → Type 0}
      → Ensures Stored N Returned (return_result r {A = A})
  unfolding Returned return_result result_of
  return_result-Stored = record {
    at = λ m h v e. subst (λ w. HasState m w.state) (ok-injective e) h;
  }

  store_failure-Stored :
      {P : Members σ → Type 0} (s : Status) (step : ℕ) (node : String) (next : List CheckpointTask)
      (pending : List CheckpointWrite)
      → Ensures P (λ _. Stored) Returned (store_failure r s step node next pending)
  unfolding store_failure Returned
  store_failure-Stored s step node next pending =
      Ensures-bind (λ _ _. Unit {0}) _ _ (Ensures-modify _ (λ m h. tt))
        λ _.
          Ensures-bind (λ _ _. Unit {0}) _ _ (Ensures-read _ (λ m h. tt))
            λ m.
              Ensures-bind (λ _ _. Unit {0}) _ _
                (Ensures-attempt _ _ (λ a e m h. tt) (λ e. Ensures-leave _ (λ m h v k. cc)))
                λ marked.
                  Ensures-bind (λ _ _. Unit {0}) _ _ (Ensures-modify _ (λ m h. tt))
                    λ _.
                      put_checkpoint-Stored step _ _ _ "failure" true false
                        (should_store-terminal "failure")

  pub fail_run-Returned :
      {A : Type 0} {P : Members σ → Type 0} {N : A → Members σ → Type 0} (s : Status) (step : ℕ)
      (node : String) (next : List CheckpointTask) (pending : List CheckpointWrite)
      → Ensures P N Returned (fail_run r {A = A} s step node next pending)
  unfolding fail_run
  fail_run-Returned s step node next pending =
      Ensures-bind (λ _. Stored) _ _ (store_failure-Stored s step node next pending)
        λ u. return_result-Stored
