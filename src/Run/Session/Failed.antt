-- ===== src/Run/Session/Failed.antt =====
-- What a checkpointer holds after `failRun`, for a resumed run to go on from.
use langgraph_cpp.Prelude.{
  ℕ, String, Bool, true, false, not, ◌&&◌, List, [], ◌∷◌, Result, ok, err, Status, ◌≡◌, refl, sym,
  ap, ◌∙◌, is_empty, ok-injective, if◌then◌else◌, text_key, ◌==◌,
}
use langgraph_cpp.Json.{JsonLib}
use langgraph_cpp.State.{Services, State}
use langgraph_cpp.Graph.Task.{
  CheckpointTask, plain_task, normalize_next_tasks, is_terminal_next_tasks,
}
use langgraph_cpp.Graph.Task.Normal.{
  normalize_next_tasks-IsNormal, normalize_next_tasks_normal, is_empty-normalize_next_tasks,
}
use langgraph_cpp.Checkpoint.Types.{Checkpoint, CheckpointWrite}
use langgraph_cpp.Run.Tasks.{annotate_tasks}
use langgraph_cpp.Run.Flow.Ensures.{
  Holds, Ensures, Ensures-bind, Ensures-leave, Ensures-attempt, Ensures-read, Ensures-modify,
  Ensures-when, Ensures-weaken,
}
use langgraph_cpp.Run.Session.{
  GraphRun, Members, RunResult, new_checkpoint, save, save_writes, after_call, store_checkpoint,
  put_checkpoint, store_failure, fail_run, return_result, result_of, failure_tasks,
  with_run_error_metadata, run_status_from_status,
}
use langgraph_cpp.Run.Session.Stored.{SaverLaws, should_store-terminal}

module _ ⦃J : JsonLib⦄ ⦃S : Services⦄ {σ : Type 0} (r : GraphRun σ)
    (laws : SaverLaws r.around.saver) (has : r.options.has_checkpointer ≡ true) where
  failure_tasks_live :
      (node : String) (next : List CheckpointTask)
      → is_terminal_next_tasks next ≡ false
      → normalize_next_tasks (failure_tasks r node next) ≡ normalize_next_tasks next
  unfolding failure_tasks
  failure_tasks_live node next live =
      ap normalize_next_tasks
        (kept (is_empty (normalize_next_tasks next)) (is_empty-normalize_next_tasks next ∙ live))
      ∙ normalize_next_tasks_normal (normalize_next_tasks next) (normalize_next_tasks-IsNormal next)
    where
      kept :
          (b : Bool)
          → b ≡ false
          → (if b && not (node == "") then plain_task node ∷ [] else normalize_next_tasks next)
            ≡ normalize_next_tasks next
      kept b h = rw (h) refl

  -- A checkpoint for the failure of a run with the state `state`: the state with the error, the
  -- tasks that are to be run and the writes that are kept.
  abbrev pub IsFailure :
      State → Status → ℕ → String → List CheckpointTask → List CheckpointWrite → Checkpoint → Type 0
  IsFailure state s step node next pending c =
      (with_run_error_metadata state s node step ≡ ok c.state)
      × (c.pending_writes ≡ pending)
      × (c.next_tasks ≡ annotate_tasks r.context step (normalize_next_tasks next))

  -- A run that returns a result has stored such a checkpoint, and returns its state.
  unfoldable pub Failed : (Checkpoint → Type 0) → Status → Members σ → Result RunResult → Type 0
  Failed IsOne s m res =
      (v : RunResult)
      → res ≡ ok v
      → (c : Checkpoint) × laws.Has m.stored c
        × IsOne c
        × (v.state ≡ c.state)
        × (v.status ≡ run_status_from_status s)

  module _ (IsOne : Checkpoint → Type 0) (s : Status) where
    -- The run shows the checkpoint's state and the failure.
    abbrev Shown : Checkpoint → Members σ → Type 0
    Shown c m = (m.state ≡ c.state) × (m.status ≡ run_status_from_status s)

    abbrev Held : Checkpoint → Members σ → Type 0
    Held c m = laws.Has m.stored c × Shown c m

    after_put :
        (c : Checkpoint) (m : Members σ) (p : σ × Result (Unit {0}))
        → r.around.saver.put c m.stored ≡ p
        → Shown c m
        → Holds (λ _. Held c) (Failed IsOne s) (after_call r m p)
    unfolding Failed
    after_put c m (t, ok u) e h = (laws.put-Has c m.stored t e, h)
    after_put c m (t, err x) e h = λ v k. cc

    after_put_writes :
        (c : Checkpoint) (m : Members σ) (p : σ × Result (Unit {0}))
        → laws.Has p.0 c
        → Shown c m
        → Holds (λ _. Held c) (Failed IsOne s) (after_call r m p)
    unfolding Failed
    after_put_writes c m (t, ok u) k h = (k, h)
    after_put_writes c m (t, err x) k h = λ v e. cc

    store_checkpoint-Held :
        (source : String) (c : Checkpoint)
        → Ensures (Shown c) (λ _. Held c) (Failed IsOne s) (store_checkpoint r source false c)
    unfolding Failed store_checkpoint save save_writes
    store_checkpoint-Held source c =
        Ensures-bind (λ _. Held c) _ _
          (Ensures-when _ _ (λ e. record { at = λ m h. after_put c m _ refl h }) (λ e. absurd cc))
          λ _.
            Ensures-bind (λ _. Held c) _ _
              (Ensures-when _ _
                (λ e. record {
                  at = λ m h. after_put_writes c m _ (laws.put_writes-Has c _ m.stored h.0) h.1;
                })
                (λ e m h. h))
              λ _.
                Ensures-bind (λ _. Held c) _ _ (Ensures-modify _ (λ m h. h))
                  λ _. Ensures-when _ _ (λ e. absurd cc) (λ e m h. h)

    return-Failed :
        {A : Type 0} {N : A → Members σ → Type 0}
        → Ensures
            (λ m. (c : Checkpoint) × Held c m × IsOne c)
            N
            (Failed IsOne s)
            (return_result r {A = A})
    unfolding Failed return_result result_of
    return-Failed = record {
      at = λ m (c, (held, (shown, status)), one) v e. (
        c,
        held,
        one,
        sym (ap (λ w. w.state) (ok-injective e)) ∙ shown,
        sym (ap (λ w. w.status) (ok-injective e)) ∙ status,
      );
    }

  stored_always : {b : Bool} → b ≡ true → b ≡ false → ⊥
  stored_always e h = cc

  module _ (state : State) (s : Status) (step : ℕ) (node : String) (next : List CheckpointTask)
      (pending : List CheckpointWrite) (live : is_terminal_next_tasks next ≡ false) where
    abbrev IsThis : Checkpoint → Type 0
    IsThis = IsFailure state s step node next pending

    put_failure-Held :
        (marked : State)
        → with_run_error_metadata state s node step ≡ ok marked
        → Ensures
            (λ m. (m.state ≡ marked) × (m.status ≡ run_status_from_status s))
            (λ _ m. (c : Checkpoint) × Held IsThis s c m × IsThis c)
            (Failed IsThis s)
            (put_checkpoint r step (failure_tasks r node next) [] pending "failure" true false)
    unfolding Failed put_checkpoint new_checkpoint
    put_failure-Held marked e =
        Ensures-bind (λ c m. Shown IsThis s c m × IsThis c) _ _
          (Ensures-read _ (λ m h. (
            (refl, h.1),
            (
              e ∙ ap ok (sym h.0),
              refl,
              ap (annotate_tasks r.context step) (failure_tasks_live node next live),
            ),
          )))
          λ c.
            Ensures-when _ _
              (λ k. record {
                at = λ m h.
                    (Ensures-weaken {N' = λ _ m. (c : Checkpoint) × Held IsThis s c m × IsThis c} _
                        (λ u m k. (c, k, h.1)) (store_checkpoint-Held IsThis s "failure" c)).at
                      m h.0;
              })
              (λ k. absurd (stored_always (should_store-terminal r laws has "failure") k))

    store_failure-Held :
        Ensures
          (λ m. m.state ≡ state)
          (λ _ m. (c : Checkpoint) × Held IsThis s c m × IsThis c)
          (Failed IsThis s)
          (store_failure r s step node next pending)
    unfolding store_failure Failed
    store_failure-Held =
        Ensures-bind (λ _ m. (m.state ≡ state) × (m.status ≡ run_status_from_status s)) _ _
          (Ensures-modify _ (λ m h. (h, refl)))
          λ _.
            Ensures-bind (λ a m. (a.state ≡ state) × (m.status ≡ run_status_from_status s)) _ _
              (Ensures-read _ (λ m h. h))
              λ a.
                Ensures-bind
                  (λ marked m.
                    (with_run_error_metadata state s node step ≡ ok marked)
                    × (m.status ≡ run_status_from_status s))
                  _ _
                  (Ensures-attempt _ _
                    (λ marked e m h.
                      (ap (λ x. with_run_error_metadata x s node step) (sym h.0) ∙ e, h.1))
                    (λ e. Ensures-leave _ (λ m h v k. cc)))
                  λ marked.
                    Ensures-bind
                      (λ _ m.
                        (with_run_error_metadata state s node step ≡ ok marked)
                        × (m.state ≡ marked)
                        × (m.status ≡ run_status_from_status s))
                      _ _ (Ensures-modify _ (λ m h. (h.0, refl, h.1)))
                      λ _. record { at = λ m h. (put_failure-Held marked h.0).at m (h.1, h.2) }

    -- A run fails: where it returns a result, the checkpointer holds its failure.
    pub fail_run-Failed :
        {A : Type 0} {N : A → Members σ → Type 0}
        → Ensures
            (λ m. m.state ≡ state)
            N
            (Failed IsThis s)
            (fail_run r {A = A} s step node next pending)
    unfolding fail_run
    fail_run-Failed =
        Ensures-bind (λ _ m. (c : Checkpoint) × Held IsThis s c m × IsThis c) _ _ store_failure-Held
          λ u. return-Failed IsThis s
