-- ===== src/Run/Execute/Attempts.antt =====
-- Which attempt decides a task.
use langgraph_cpp.Prelude.{
  ℕ, zero, suc, ◌+◌, ◌-◌, ◌<◌, ◌≡◌, refl, sym, ◌∙◌, ap, ◌↔◌, true, some, Result, ok, err, Status,
  has_value, text_key, nat_key, arith, Option-cases, inl, inr,
}
use langgraph_cpp.Prelude.Map.{lookup}
use langgraph_cpp.Json.{JsonLib}
use langgraph_cpp.State.{Services, State}
use langgraph_cpp.Graph.Task.{CheckpointTask}
use langgraph_cpp.Graph.Types.{StateGraph, NodeSpec, NodeOutput}
use langgraph_cpp.Run.Execute.{
  NodeExecution, RunContext, CancelChecks, output_of_attempt, info_for, Tried, finished,
  cancelled_by, exhausted, done, stopped, try_node, attempts_of, handle_failure, handled,
  after_tries, input_of, execute_task,
}

module _ ⦃J : JsonLib⦄ ⦃S : Services⦄ (g : StateGraph) (run : RunContext)
    (checks : CancelChecks) where
  -- An execution is of its task, and has an output exactly when its status is ok.
  abbrev pub IsExecution : CheckpointTask → NodeExecution → Type 0
  IsExecution task e = (e.task ≡ task) × ((e.status ≡ ok tt) ↔ (has_value e.output ≡ true))

  done-IsExecution : (task : CheckpointTask) (o : NodeOutput) → IsExecution task (done task o)
  done-IsExecution task o = (refl, (λ h. refl, λ h. refl))

  stopped-IsExecution : (task : CheckpointTask) (s : Status) → IsExecution task (stopped task s)
  stopped-IsExecution task s = (refl, (λ h. cc, λ h. cc))

  handled-IsExecution :
      (task : CheckpointTask) (r : Result NodeOutput) → IsExecution task (handled task r)
  handled-IsExecution task (ok o) = done-IsExecution task o
  handled-IsExecution task (err s) = stopped-IsExecution task s

  handle_failure-IsExecution :
      (spec : NodeSpec) (input : State) (index : ℕ) (task : CheckpointTask) (step : ℕ) (s : Status)
      → IsExecution task (handle_failure g run checks spec input index task step s)
  unfolding handle_failure
  handle_failure-IsExecution spec input index task step s =
      elim (Option-cases spec.options.error_handler) [
        | inl none_set ↦ rw none_set (stopped-IsExecution task s)
        | inr (handler, set) ↦ rw set (handled-IsExecution task _)
      ]

  after_tries-IsExecution :
      (spec : NodeSpec) (input : State) (index : ℕ) (task : CheckpointTask) (step : ℕ)
      (t : Tried g run checks)
      → IsExecution task (after_tries g run checks spec input index task step t)
  unfolding after_tries
  after_tries-IsExecution spec input index task step (finished o) = done-IsExecution task o
  after_tries-IsExecution spec input index task step (cancelled_by s) = stopped-IsExecution task s
  after_tries-IsExecution spec input index task step (exhausted s) =
      handle_failure-IsExecution spec input index task step s

  -- Whatever the node, its handlers and the cancellation token do, the execution of a task is of
  -- that task, and its status is ok exactly when it has an output.
  pub execute_task-IsExecution :
      (index : ℕ) (task : CheckpointTask) (input : State) (step : ℕ)
      → IsExecution task (execute_task g run checks index task input step)
  unfolding execute_task
  execute_task-IsExecution index task input step =
      elim (Option-cases (lookup task.node_id g.nodes)) [
        | inl absent ↦ rw (execute_task, absent) (stopped-IsExecution task _)
        | inr (spec, there) ↦
            rw (execute_task, there)
              (after_tries-IsExecution spec (input_of task.state input) index task step _)
      ]

  module _ (spec : NodeSpec) (input : State) (index : ℕ) (task : CheckpointTask) (step : ℕ) where
    abbrev pub attempt_output : ℕ → Result NodeOutput
    attempt_output n =
        output_of_attempt spec.options.has_timeout
          (spec.handler input (info_for g run checks index task step n))

    -- Attempt `n` is made and fails with `s`, and the wait behind it is not cut short.
    abbrev pub Fails : ℕ → Status → Type 0
    Fails n s =
        (checks.before_attempt index n ≡ ok tt)
        × (attempt_output n ≡ err s)
        × (checks.during_delay index n ≡ ok tt)

    try_node-skip :
        (more attempt : ℕ) (s : Status)
        → Fails attempt s
        → try_node g run checks spec input index task step (suc more) attempt
          ≡ try_node g run checks spec input index task step more (suc attempt)
    unfolding try_node
    try_node-skip more attempt s f = ground (arith, f.0, f.1, f.2)

    -- The first `k` attempts from `attempt` on fail, each with its status.
    abbrev pub AllFail : ℕ → ℕ → (ℕ → Status) → Type 0
    AllFail zero attempt status = Unit
    AllFail (suc k) attempt status = Fails attempt (status attempt) × AllFail k (suc attempt) status

    try_node-skips :
        (k more attempt : ℕ) (status : ℕ → Status)
        → AllFail k attempt status
        → try_node g run checks spec input index task step (k + more) attempt
          ≡ try_node g run checks spec input index task step more (k + attempt)
    try_node-skips zero more attempt status f =
        let run_for = try_node g run checks spec input index task step in
        ap (λ n. run_for n attempt) (omega arith) ∙ ap (λ n. run_for more n) (omega arith)
    try_node-skips (suc k) more attempt status f =
        ap (λ n. try_node g run checks spec input index task step n attempt) (omega arith)
        ∙ try_node-skip (k + more) attempt (status attempt) f.0
        ∙ try_node-skips k more (suc attempt) status f.1
        ∙ ap (λ n. try_node g run checks spec input index task step more n) (omega arith)

    try_node-finish :
        (more attempt : ℕ) (o : NodeOutput)
        → checks.before_attempt index attempt ≡ ok tt
        → attempt_output attempt ≡ ok o
        → try_node g run checks spec input index task step more attempt ≡ finished o
    unfolding try_node
    try_node-finish zero attempt o b e = ground arith
    try_node-finish (suc more) attempt o b e = ground arith

    try_node-exhaust :
        (attempt : ℕ) (s : Status)
        → checks.before_attempt index attempt ≡ ok tt
        → attempt_output attempt ≡ err s
        → try_node g run checks spec input index task step zero attempt ≡ exhausted s
    unfolding try_node
    try_node-exhaust attempt s b e = ground arith

  -- When the first `k` attempts at a task fail, `k` is below the node's number of attempts, no
  -- cancellation comes between, and the next attempt has an output, then that output is the task's.
  pub execute_task-retries :
      (spec : NodeSpec) (state : State) (index : ℕ) (task : CheckpointTask) (step k : ℕ)
      (status : ℕ → Status) (o : NodeOutput)
      → lookup task.node_id g.nodes ≡ some spec
      → k < attempts_of spec
      → AllFail spec (input_of task.state state) index task step k 1 status
      → checks.before_attempt index (k + 1) ≡ ok tt
      → attempt_output spec (input_of task.state state) index task step (k + 1) ≡ ok o
      → execute_task g run checks index task state step ≡ done task o
  unfolding execute_task after_tries
  execute_task-retries spec state index task step k status o there few fails b e =
      let input = input_of task.state state in
      let more = attempts_of spec - 1 - k in
      let all : k + more ≡ attempts_of spec - 1 = omega (arith, few) in
      let run_of : ℕ → NodeExecution = λ n.
        after_tries g run checks spec input index task step
          (try_node g run checks spec input index task step n 1) in
      rw (execute_task, there)
        (sym (ap run_of all)
          ∙ ap (after_tries g run checks spec input index task step) (
              try_node-skips spec input index task step k more 1 status fails
              ∙ try_node-finish spec input index task step more (k + 1) o b e))

  -- When every one of the node's attempts at a task fails and none is cut short by a cancellation,
  -- the task ends as the error handler's turn with the status of the last attempt ends.
  pub execute_task-exhausts :
      (spec : NodeSpec) (state : State) (index : ℕ) (task : CheckpointTask) (step k : ℕ)
      (status : ℕ → Status) (s : Status)
      → lookup task.node_id g.nodes ≡ some spec
      → k + 1 ≡ attempts_of spec
      → AllFail spec (input_of task.state state) index task step k 1 status
      → checks.before_attempt index (k + 1) ≡ ok tt
      → attempt_output spec (input_of task.state state) index task step (k + 1) ≡ err s
      → execute_task g run checks index task state step
        ≡ handle_failure g run checks spec (input_of task.state state) index task step s
  unfolding execute_task after_tries
  execute_task-exhausts spec state index task step k status s there last fails b e =
      let input = input_of task.state state in
      let all : k + 0 ≡ attempts_of spec - 1 = omega (arith, last) in
      let run_of : ℕ → NodeExecution = λ n.
        after_tries g run checks spec input index task step
          (try_node g run checks spec input index task step n 1) in
      rw (execute_task, there)
        (sym (ap run_of all)
          ∙ ap (after_tries g run checks spec input index task step) (
              try_node-skips spec input index task step k 0 1 status fails
              ∙ try_node-exhaust spec input index task step (k + 1) s b e))
