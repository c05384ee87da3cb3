-- ===== src/Run/Session/Repeated.antt =====
-- A failure at a step whose checkpoint the run has stored before, with the saver in memory.
use langgraph_cpp.Prelude.{
  ℕ, String, Bool, true, false, List, [], Result, ok, err, Status, ◌≡◌, refl, ap, ◌∙◌, any,
  Result-cases, inl, inr, already_exists, text_key, arith,
}
use langgraph_cpp.Json.{JsonLib}
use langgraph_cpp.State.{Services}
use langgraph_cpp.Graph.Task.{CheckpointTask}
use langgraph_cpp.Checkpoint.Types.{Checkpoint, CheckpointWrite, validate_checkpoint_for_store}
use langgraph_cpp.Checkpoint.Saver
use langgraph_cpp.Checkpoint.Saver.{kept_or, InMemorySaver, history, same_id}
use langgraph_cpp.Run.Flow.{Flow, proceeds, stops}
use langgraph_cpp.Run.Flow.Ensures.{
  Holds, Ensures, Ensures-bind, Ensures-leave, Ensures-attempt, Ensures-read, Ensures-modify,
  Ensures-when,
}
use langgraph_cpp.Run.Session.{
  GraphRun, Members, RunResult, new_checkpoint, new_checkpoint_id, should_store, save, after_call,
  store_checkpoint, put_checkpoint, store_failure, fail_run,
}
use langgraph_cpp.Run.Session.Memory.{memory_saver}

module _ ⦃J : JsonLib⦄ where
  pub put-refuses :
      (c : Checkpoint) (s : InMemorySaver)
      → any (same_id c.checkpoint_namespace c.checkpoint_id) (history s c.thread_id) ≡ true
      → (e : Status) × (Saver.put c s ≡ err e)
  unfolding Saver.put
  put-refuses c s h = elim (Result-cases (validate_checkpoint_for_store c)) [
    | inl (e, refused) ↦ (e, rw (refused, Saver.put) refl)
    | inr (u, valid) ↦ (
      record { code = already_exists; message = "checkpoint already exists" },
      rw (valid, Saver.put) (rw h refl),
    )
  ]

module _ ⦃J : JsonLib⦄ ⦃S : Services⦄ (r : GraphRun InMemorySaver)
    (in_memory : r.around.saver ≡ memory_saver) (has : r.options.has_checkpointer ≡ true) where
  abbrev Refused : Members InMemorySaver → Result RunResult → Type 0
  Refused m res = (e : Status) × (res ≡ err e)

  abbrev IsTaken : Checkpoint → Members InMemorySaver → Type 0
  IsTaken c m =
      any (same_id c.checkpoint_namespace c.checkpoint_id) (history m.stored c.thread_id) ≡ true

  abbrev Never : Unit {0} → Members InMemorySaver → Type 0
  Never u m = ⊥

  after_refusal :
      (m : Members InMemorySaver) (p : InMemorySaver × Result (Unit {0})) (e : Status)
      → p.1 ≡ err e
      → Holds Never Refused (after_call r m p)
  after_refusal m (t, ok u) e h = absurd cc
  after_refusal m (t, err x) e h = (x, refl)

  save-Refused : (c : Checkpoint) → Ensures (IsTaken c) Never Refused (save r c)
  unfolding save
  save-Refused c = record {
    at = λ m h.
        let (e, refused) = put-refuses c m.stored h in
        after_refusal m (r.around.saver.put c m.stored) e
          (ap (λ w. (w.put c m.stored).1) in_memory ∙ ap (λ res. (kept_or m.stored res).1) refused);
  }

  store_checkpoint-Refused :
      (source : String) (require_event : Bool) (c : Checkpoint)
      → Ensures (IsTaken c) Never Refused (store_checkpoint r source require_event c)
  unfolding store_checkpoint
  store_checkpoint-Refused source require_event c =
      Ensures-bind Never _ _ (Ensures-when _ _ (λ e. save-Refused c) (λ e. absurd cc))
        λ u. record { at = λ m h. absurd h }

  -- The name of the step's checkpoint, other than those between the tasks of a step.
  abbrev IsNamed : ℕ → Members InMemorySaver → Type 0
  IsNamed step m =
      any (same_id r.context.checkpoint_namespace (new_checkpoint_id r "failure" step 0))
        (history m.stored r.context.thread_id)
      ≡ true

  put_failure-Refused :
      (step : ℕ) (next : List CheckpointTask) (pending : List CheckpointWrite)
      → Ensures
          (IsNamed step)
          Never
          Refused
          (put_checkpoint r step next [] pending "failure" true false)
  unfolding put_checkpoint new_checkpoint new_checkpoint_id should_store
  put_failure-Refused step next pending = Ensures-bind IsTaken _ _ (Ensures-read _ (λ m h. h)) λ c.
      Ensures-when _ _ (λ e. store_checkpoint-Refused "failure" false c)
        (λ e. absurd (ground arith))

  stopped_by :
      (p : Members InMemorySaver × Flow (Result RunResult) (Unit {0}))
      → Holds Never Refused p
      → (e : Status) × (p.1 ≡ stops (err e))
  stopped_by (m, proceeds u) h = absurd h
  stopped_by (m, stops res) h = (h.0, ap stops h.1)

  -- When the checkpoint of a step is already in the saver in memory, a run that fails at that step
  -- returns an error instead of a result with the status of its failure: the checkpoint with the
  -- failure would take the same name.
  pub fail_run-Refused :
      (s : Status) (step : ℕ) (node : String) (next : List CheckpointTask)
      (pending : List CheckpointWrite) (m : Members InMemorySaver)
      → IsNamed step m
      → (e : Status) × ((fail_run r {A = Unit {0}} s step node next pending m).1 ≡ stops (err e))
  unfolding fail_run store_failure
  fail_run-Refused s step node next pending m h =
      stopped_by (fail_run r s step node next pending m) (whole.at m h)
    where
      whole : Ensures (IsNamed step) Never Refused (fail_run r s step node next pending)
      whole =
          Ensures-bind Never _ _
            (Ensures-bind (λ _. IsNamed step) _ _ (Ensures-modify _ (λ m h. h))
              λ u.
                Ensures-bind (λ _. IsNamed step) _ _ (Ensures-read _ (λ m h. h))
                  λ m.
                    Ensures-bind (λ _. IsNamed step) _ _
                      (Ensures-attempt _ _ (λ a e m h. h) (λ e. Ensures-leave _ (λ m h. (e, refl))))
                      λ marked.
                        Ensures-bind (λ _. IsNamed step) _ _ (Ensures-modify _ (λ m h. h))
                          λ u. put_failure-Refused step _ pending)
            λ u. record { at = λ m h. absurd h }
