-- ===== src/Run/Step/Merged.antt =====
-- How a super-step merges its writes.
use langgraph_cpp.Prelude.{
  ℕ, String, ◌≡◌, refl, sym, ap, ◌∙◌, subst, Status, Bool, true, false, some, List, [], ◌∷◌, ◌++◌,
  Result, ok, err, stable_sort-split, AllApart, keep, not, arith,
}
use langgraph_cpp.Prelude
use langgraph_cpp.Json.{JsonLib}
use langgraph_cpp.State.{Services, State, update_from_json_value}
use langgraph_cpp.State.Reducer.{apply_state_update}
use langgraph_cpp.Graph.Task.{CheckpointTask, normalize_next_tasks, is_terminal_next_tasks}
use langgraph_cpp.Checkpoint.Types.{Checkpoint, CheckpointWrite}
use langgraph_cpp.Run.Tasks.{annotate_tasks}
use langgraph_cpp.Run.Writes.{write_order_less, apply_write, validate_state_schema}
use langgraph_cpp.Run.Flow.{Flow, proceeds, stops, ◌>>=◌, read, modify, attempt, pure, on_flow}
use langgraph_cpp.Run.Flow.Ensures.{Holds}
use langgraph_cpp.Run.Session.{
  GraphRun, Members, RunResult, Part, state_updated, fail_run, return_result, store_failure,
  with_run_error_metadata, run_status_from_status,
}
use langgraph_cpp.Run.Session.Stored.{SaverLaws}
use langgraph_cpp.Run.Session.Failed.{Failed, IsFailure, fail_run-Failed}
use langgraph_cpp.Run.Checks.{Checked}
use langgraph_cpp.Run.Step.{publish_write, merge_write, merge_all, commit_writes}

module _ ⦃J : JsonLib⦄ where
  less_strict : (a b : CheckpointWrite) → write_order_less a b ≡ true → write_order_less b a ≡ false
  unfolding write_order_less
  less_strict a b h = ground arith

  less_chain :
      (a b c : CheckpointWrite)
      → write_order_less a b ≡ true
      → write_order_less b c ≡ true
      → write_order_less a c ≡ true
  unfolding write_order_less
  less_chain a b c h k = ground arith

module _ ⦃J : JsonLib⦄ ⦃S : Services⦄ {σ : Type 0} (r : GraphRun σ) (step : ℕ) where
  -- The rest of a run is not reached after `fail_run`.
  after_put :
      {A B : Type 0} (p : Members σ × Flow (Result RunResult) (Unit {0})) (f : A → Part r B)
      → on_flow (on_flow p (λ _. return_result r)) f ≡ on_flow p (λ _. return_result r)
  unfolding return_result
  after_put (m, proceeds u) f = refl
  after_put (m, stops res) f = refl

  fail_run-bind :
      {A B : Type 0} (e : Status) (node : String) (next : List CheckpointTask)
      (pending : List CheckpointWrite) (f : A → Part r B) (m : Members σ)
      → (fail_run r e step node next pending >>= f) m ≡ fail_run r e step node next pending m
  unfolding fail_run ◌>>=◌
  fail_run-bind e node next pending f m = after_put (store_failure r e step node next pending m) f

  -- When the collected writes have numbers that differ, a super-step commits them alike, to the
  -- state, the next tasks and the checkpoints, whether they come in one list or some of them, any
  -- of them, come first, as those do that are carried over from a failed attempt.
  pub commit_writes-split :
      (active : List CheckpointTask) (pending : List CheckpointWrite) (c : Checked)
      (carried : CheckpointWrite → Bool) (ws : List CheckpointWrite) (m : Members σ)
      → AllApart write_order_less ws
      → commit_writes r step active pending c (keep carried ws ++ keep (λ w. not (carried w)) ws) m
        ≡ commit_writes r step active pending c ws m
  unfolding commit_writes
  commit_writes-split active pending c carried ws m h =
      ap
        (λ sorted.
          (merge_all r step active pending sorted >>= λ _.
          langgraph_cpp.Run.Step.end_step r step active sorted c.interrupts c.parent_command)
            m)
        (stable_sort-split write_order_less less_strict less_chain carried ws h)

  abbrev pub with_state : Members σ → State → Members σ
  with_state m state = record m { state = state }

  -- The state that a list of writes leads to: each update is merged by its reducers, the state fits
  -- its schema, and the event is taken.
  pub data Merged : List CheckpointWrite → State → State → Type 0 where
    none_left : {state : State} → Merged [] state state
    one_more :
        {w : CheckpointWrite} {ws : List CheckpointWrite} {state after last : State}
        → Prelude.◌>>=◌
            (update_from_json_value w.update)
            (λ u. apply_state_update state u r.options.reducers)
          ≡ ok after
        → validate_state_schema r.graph r.options.reducers
            (publish_write r step)
            r.graph.schemas.state_schema
            "state"
            after
          ≡ ok tt
        → r.around.emit (state_updated step w) ≡ ok tt
        → Merged ws after last
        → Merged (w ∷ ws) state last

  abbrev applied : CheckpointWrite → State → State × Result (Unit {0})
  applied = apply_write r.graph r.options.reducers (publish_write r step) step

  apply_write-merges :
      (w : CheckpointWrite) (state after : State)
      → Prelude.◌>>=◌
          (update_from_json_value w.update)
          (λ u. apply_state_update state u r.options.reducers)
        ≡ ok after
      → validate_state_schema r.graph r.options.reducers
          (publish_write r step)
          r.graph.schemas.state_schema
          "state"
          after
        ≡ ok tt
      → r.around.emit (state_updated step w) ≡ ok tt
      → applied w state ≡ (after, ok tt)
  unfolding apply_write
  apply_write-merges w state after e fits taken = rw (e, apply_write) (rw (fits, taken) refl)

  apply_write-fails :
      (w : CheckpointWrite) (state : State) (s : Status)
      → Prelude.◌>>=◌
          (update_from_json_value w.update)
          (λ u. apply_state_update state u r.options.reducers)
        ≡ err s
      → applied w state ≡ (state, err s)
  unfolding apply_write
  apply_write-fails w state s e = rw (e, apply_write) refl

  merge_write-merges :
      (active : List CheckpointTask) (pending : List CheckpointWrite) (w : CheckpointWrite)
      (m : Members σ) (after : State)
      → applied w m.state ≡ (after, ok tt)
      → merge_write r step active pending w m ≡ (with_state m after, proceeds tt)
  unfolding merge_write ◌>>=◌ read modify attempt pure
  merge_write-merges active pending w m after e = rw (e, merge_write) refl

  merge_write-fails :
      (active : List CheckpointTask) (pending : List CheckpointWrite) (w : CheckpointWrite)
      (m : Members σ) (s : Status)
      → applied w m.state ≡ (m.state, err s)
      → merge_write r step active pending w m ≡ fail_run r s step w.node_id active pending m
  unfolding merge_write ◌>>=◌ read modify attempt pure
  merge_write-fails active pending w m s e = rw (e, merge_write) refl

  merge_all-fails :
      (active : List CheckpointTask) (pending before : List CheckpointWrite) (w : CheckpointWrite)
      (later : List CheckpointWrite) (m : Members σ) (merged : State) (s : Status)
      → Merged before m.state merged
      → Prelude.◌>>=◌
          (update_from_json_value w.update)
          (λ u. apply_state_update merged u r.options.reducers)
        ≡ err s
      → merge_all r step active pending (before ++ w ∷ later) m
        ≡ fail_run r s step w.node_id active pending (with_state m merged)
  unfolding merge_all ◌>>=◌
  merge_all-fails active pending _ w later m merged s none_left e =
      ap (λ p. on_flow p (λ u. merge_all r step active pending later))
        (merge_write-fails active pending w m s (apply_write-fails w m.state s e))
      ∙ fail_run-bind s w.node_id active pending (λ u. merge_all r step active pending later) m
  merge_all-fails active pending _ w later m merged s
        (one_more {w = first} {ws} {after} e1 fits taken more) e =
      ap (λ p. on_flow p (λ u. merge_all r step active pending (ws ++ w ∷ later)))
        (merge_write-merges active pending first m after
          (apply_write-merges first m.state after e1 fits taken))
      ∙ merge_all-fails active pending ws w later (with_state m after) merged s more e

  -- When the writes before it are merged, the update of the next write cannot be merged, and the run
  -- returns a result, the run has failed: the checkpointer holds a checkpoint whose state, also that
  -- of the result, is what the writes before have made of the run's state, with the error put in;
  -- all the tasks of the step are to be run again, and what was carried over before the step is
  -- kept. The result has the status of the failure.
  pub merge_all-stops :
      (laws : SaverLaws r.around.saver)
      → r.options.has_checkpointer ≡ true
      → (active : List CheckpointTask) (pending before : List CheckpointWrite) (w : CheckpointWrite)
        (later : List CheckpointWrite) (m m' : Members σ) (merged : State) (s : Status)
        (v : RunResult)
      → is_terminal_next_tasks active ≡ false
      → Merged before m.state merged
      → Prelude.◌>>=◌
          (update_from_json_value w.update)
          (λ u. apply_state_update merged u r.options.reducers)
        ≡ err s
      → merge_all r step active pending (before ++ w ∷ later) m ≡ (m', stops (ok v))
      → (d : Checkpoint) × laws.Has m'.stored d
        × (with_run_error_metadata merged s w.node_id step ≡ ok d.state)
        × (d.pending_writes ≡ pending)
        × (d.next_tasks ≡ annotate_tasks r.context step (normalize_next_tasks active))
        × (v.state ≡ d.state)
        × (v.status ≡ run_status_from_status s)
  unfolding Failed
  merge_all-stops laws has active pending before w later m m' merged s v live merges fails e =
      let (d, held, (marked, kept, tasks), state, status) =
        subst
          (Holds (λ _ _. Unit {0})
            (Failed r laws has (IsFailure r laws has merged s step w.node_id active pending) s))
          (sym (merge_all-fails active pending before w later m merged s merges fails) ∙ e)
          ((fail_run-Failed r laws has merged s step w.node_id active pending live
              {N = λ _ _. Unit {0}}).at
            (with_state m merged) refl)
          v refl in
      (d, held, marked, kept, tasks, state, status)
