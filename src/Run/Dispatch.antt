-- ===== src/Run/Dispatch.antt =====
-- `dispatchExecutions`: the tasks of a super-step, in groups that run at the same time. Each task's
-- result has its own slot, which is read in the order of the tasks.
pub mod Order
use langgraph_cpp.Prelude.{
  ℕ, zero, suc, ◌+◌, ◌-◌, min, Bool, true, false, List, [], ◌∷◌, ◌++◌, Result, ok, err, leb, ◌==◌,
  nat_key, not, if◌then◌else◌, length, take, drop,
}
use langgraph_cpp.Json.{JsonLib}
use langgraph_cpp.State.{Services, State}
use langgraph_cpp.Graph.Task.{CheckpointTask}
use langgraph_cpp.Graph.Types.{StateGraph}
use langgraph_cpp.Run.Execute.{NodeExecution, RunContext, CancelChecks, stopped, execute_task}

-- `hardware` is `std::thread::hardware_concurrency()`.
pub fan_out_concurrency : ℕ → ℕ → Bool → ℕ → ℕ
fan_out_concurrency task_count max_concurrency bound_by_hardware hardware =
    if leb task_count 1
    then task_count
    else if not (max_concurrency == 0)
    then min max_concurrency task_count
    else if not bound_by_hardware
    then task_count
    else min task_count (if hardware == 0 then 4 else hardware)

-- What a run is given besides the tasks: how many may run at once, and whether the executor takes
-- the task at an index.
pub record Dispatch : Type 0 where
  pub max_concurrency : ℕ
  pub own_executor : Bool
  pub hardware : ℕ
  pub submit : ℕ → Result (Unit {0})

module _ ⦃J : JsonLib⦄ ⦃S : Services⦄ (g : StateGraph) (run : RunContext) (checks : CancelChecks)
    (d : Dispatch) (input : State) (step : ℕ) where
  -- A task that the executor does not take fails with the executor's status.
  pub submit_task : ℕ → CheckpointTask → NodeExecution
  unfolding execute_task
  submit_task i task = elim (d.submit i) [
    | ok _ ↦ execute_task g run checks i task input step
    | err s ↦ stopped task s
  ]

  pub submit_all : ℕ → List CheckpointTask → List NodeExecution
  unfolding submit_task
  submit_all i [] = []
  submit_all i (t ∷ ts) = submit_task i t ∷ submit_all (suc i) ts

  -- A group of one runs on the caller's thread.
  pub run_group : ℕ → List CheckpointTask → List NodeExecution
  unfolding submit_all execute_task
  run_group i [] = []
  run_group i (t ∷ []) = execute_task g run checks i t input step ∷ []
  run_group i (t ∷ u ∷ ts) = submit_all i (t ∷ u ∷ ts)

  -- One group after the other; `fuel` is at least the number of groups.
  pub run_groups : ℕ → ℕ → ℕ → List CheckpointTask → List NodeExecution
  unfolding run_group take drop
  run_groups zero size begin ts = []
  run_groups (suc fuel) size begin ts =
      let rest = run_groups fuel size (begin + size) (drop size ts) in
      run_group begin (take size ts) ++ rest

  pub dispatch_executions : List CheckpointTask → List NodeExecution
  unfolding run_groups fan_out_concurrency
  dispatch_executions ts =
      run_groups (length ts)
        (fan_out_concurrency (length ts) d.max_concurrency (not d.own_executor) d.hardware) 0 ts
