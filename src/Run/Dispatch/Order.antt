-- ===== src/Run/Dispatch/Order.antt =====
-- The executions of a super-step against those of its tasks one by one.
use langgraph_cpp.Prelude.{
  ℕ, zero, suc, ◌+◌, ◌≤◌, ◌<◌, ◌≡◌, refl, ◌∙◌, ap, Bool, List, [], ◌∷◌, ◌++◌, ok, not, nat_key,
  length, take, drop, arith,
}
use langgraph_cpp.Json.{JsonLib}
use langgraph_cpp.State.{Services, State}
use langgraph_cpp.Graph.Task.{CheckpointTask}
use langgraph_cpp.Graph.Types.{StateGraph}
use langgraph_cpp.Run.Execute.{NodeExecution, RunContext, CancelChecks, execute_task}
use langgraph_cpp.Run.Dispatch.{
  Dispatch, fan_out_concurrency, submit_task, submit_all, run_group, run_groups,
  dispatch_executions,
}

fan_out_positive : (n m h : ℕ) (b : Bool) → 0 < n → 0 < fan_out_concurrency n m b h
unfolding fan_out_concurrency
fan_out_positive n m h b p = ground arith

module _ ⦃J : JsonLib⦄ ⦃S : Services⦄ (g : StateGraph) (run : RunContext) (checks : CancelChecks)
    (d : Dispatch) (input : State) (step : ℕ) where
  -- Each task by itself, in order.
  unfoldable pub execute_all : ℕ → List CheckpointTask → List NodeExecution
  execute_all i [] = []
  execute_all i (t ∷ ts) = execute_task g run checks i t input step ∷ execute_all (suc i) ts

  abbrev Accepts : Type 0
  Accepts = (i : ℕ) → d.submit i ≡ ok tt

  submit_all-execute_all :
      (i : ℕ) (ts : List CheckpointTask)
      → Accepts
      → submit_all g run checks d input step i ts ≡ execute_all i ts
  unfolding submit_all submit_task execute_all
  submit_all-execute_all i [] a = refl
  submit_all-execute_all i (t ∷ ts) a =
      rw (submit_task, a i)
        (ap (λ es. execute_task g run checks i t input step ∷ es)
          (submit_all-execute_all (suc i) ts a))

  run_group-execute_all :
      (i : ℕ) (ts : List CheckpointTask)
      → Accepts
      → run_group g run checks d input step i ts ≡ execute_all i ts
  unfolding run_group execute_all
  run_group-execute_all i [] a = refl
  run_group-execute_all i (t ∷ []) a = refl
  run_group-execute_all i (t ∷ u ∷ ts) a = submit_all-execute_all i (t ∷ u ∷ ts) a

  execute_all-split :
      (n i : ℕ) (ts : List CheckpointTask)
      → execute_all i (take n ts) ++ execute_all (i + n) (drop n ts) ≡ execute_all i ts
  unfolding execute_all take drop
  execute_all-split zero i ts = ap (λ n. execute_all n ts) (omega arith)
  execute_all-split (suc n) i [] = refl
  execute_all-split (suc n) i (t ∷ ts) =
      ap (λ es. execute_task g run checks i t input step ∷ es)
        (ap (λ k. execute_all (suc i) (take n ts) ++ execute_all k (drop n ts)) (omega arith)
          ∙ execute_all-split n (suc i) ts)

  drop-length : (n : ℕ) (ts : List CheckpointTask) → length (drop n ts) ≤ length ts
  unfolding drop
  drop-length zero ts = omega arith
  drop-length (suc n) [] = omega arith
  drop-length (suc n) (t ∷ ts) = omega (arith, drop-length n ts)

  drop-less :
      (n fuel : ℕ) (ts : List CheckpointTask)
      → 0 < n
      → length ts ≤ suc fuel
      → length (drop n ts) ≤ fuel
  unfolding drop
  drop-less zero fuel ts p f = omega (arith, p)
  drop-less (suc n) fuel [] p f = omega arith
  drop-less (suc n) fuel (t ∷ ts) p f = omega (arith, f, drop-length n ts)

  run_groups-execute_all :
      (fuel size begin : ℕ) (ts : List CheckpointTask)
      → Accepts
      → 0 < size
      → length ts ≤ fuel
      → run_groups g run checks d input step fuel size begin ts ≡ execute_all begin ts
  unfolding run_groups execute_all
  run_groups-execute_all zero size begin [] a p f = refl
  run_groups-execute_all zero size begin (t ∷ ts) a p f = ground (arith, f)
  run_groups-execute_all (suc fuel) size begin ts a p f =
      ap (λ es. es ++ run_groups g run checks d input step fuel size (begin + size) (drop size ts))
        (run_group-execute_all begin (take size ts) a)
      ∙ ap (λ es. execute_all begin (take size ts) ++ es)
          (run_groups-execute_all fuel size (begin + size) (drop size ts) a p
            (drop-less size fuel ts p f))
      ∙ execute_all-split size begin ts

  -- With an executor that takes every task, a super-step's executions are those of its tasks one
  -- by one in their order, whatever the limit on how many run at once.
  pub dispatch_executions-execute_all :
      (ts : List CheckpointTask)
      → ((i : ℕ) → d.submit i ≡ ok tt)
      → dispatch_executions g run checks d input step ts ≡ execute_all 0 ts
  unfolding dispatch_executions run_groups execute_all
  dispatch_executions-execute_all [] a = refl
  dispatch_executions-execute_all (t ∷ ts) a =
      run_groups-execute_all (length (t ∷ ts)) _ 0 (t ∷ ts) a
        (fan_out_positive (length (t ∷ ts)) d.max_concurrency d.hardware (not d.own_executor)
          (omega arith))
        (omega arith)
