-- ===== src/Run/Execute.antt =====
-- `executeTask`: the attempts at one task, and its error handler.
pub mod Attempts
use langgraph_cpp.Prelude.{
  ℕ, zero, suc, ◌+◌, ◌-◌, max, String, Bool, true, false, Option, none, some, List, [], ◌∷◌, Result,
  ok, err, Status, StatusCode, fail, fail_if, or_fail, labelled, ◌>>=◌, ◌>>◌, aborted,
  deadline_exceeded, unknown, internal, invalid_argument, failed_precondition, ◌&&◌, if◌then◌else◌,
  text_key, nat_key,
}
use langgraph_cpp.Prelude.Map.{Map, lookup}
use langgraph_cpp.Json.{JsonLib, Json, as_object, as_text, fields, json_object}
use langgraph_cpp.State.{Services, State, StateUpdate}
use langgraph_cpp.Graph.Task.{CheckpointTask}
use langgraph_cpp.Graph.Types.{
  StateGraph, NodeSpec, NodeOptions, NodeOutput, Interrupt, HandlerCall, returned, failed, threw,
  threw_unknown, Attempt, Info, NodeErrorHandler,
}

module _ ⦃J : JsonLib⦄ where
  pub record NodeExecution : Type 0 where
    pub task : CheckpointTask
    pub output : Option NodeOutput
    pub status : Result (Unit {0})

  abbrev pub done : CheckpointTask → NodeOutput → NodeExecution
  done t o = record { task = t; output = some o; status = ok tt }

  abbrev pub stopped : CheckpointTask → Status → NodeExecution
  stopped t s = record { task = t; output = none; status = err s }

  abbrev pub handled : CheckpointTask → Result NodeOutput → NodeExecution
  handled task (ok o) = done task o
  handled task (err s) = stopped task s

  -- `std::max(1, maxAttempts)`
  abbrev pub attempts_of : NodeSpec → ℕ
  attempts_of spec = max 1 spec.options.max_attempts

  abbrev pub input_of : Option State → State → State
  input_of none s = s
  input_of (some own) s = own

  -- The state of a `GraphRun` that the attempts read.
  pub record RunContext : Type 0 where
    pub run_id : String
    pub thread_id : String
    pub checkpoint_namespace : String
    pub resume_values : Map ℕ Json

  -- What the cancellation token answers, by the task's index and the attempt: before the attempt,
  -- and while waiting for the next one. A wait that the backoff has brought to zero asks nothing,
  -- so its answer is ok.
  pub record CancelChecks : Type 0 where
    pub before_attempt : ℕ → ℕ → Result (Unit {0})
    pub during_delay : ℕ → ℕ → Result (Unit {0})

  abbrev value_or_empty : Option Json → Json
  value_or_empty none = json_object []
  value_or_empty (some v) = v

  resume_values_of : Option Json → Result Json
  resume_values_of none = ok (json_object [])
  resume_values_of (some v) =
      or_fail (as_object v) invalid_argument
        "runtime interrupt request resume_values must be an object"
      >>= λ _. ok v

  pub interrupt_from_runtime_request : Json → Result Interrupt
  unfolding resume_values_of
  interrupt_from_runtime_request request = do
    _ ← or_fail (as_object request) invalid_argument "runtime interrupt request must be an object"
    id_value ←
        or_fail (lookup "id" (fields request)) invalid_argument
          "runtime interrupt request id must be a string"
    id ← or_fail (as_text id_value) invalid_argument "runtime interrupt request id must be a string"
    values ← resume_values_of (lookup "resume_values" (fields request))
    ok (record {
      id = id;
      value = value_or_empty (lookup "value" (fields request));
      resume_values = values;
    })

  -- `NodeOutput::interrupt`; the update is empty.
  pub interrupt_output : Interrupt → NodeOutput
  interrupt_output i = record { update = json_object []; interrupt = some i; command = none }

  abbrev exception_status : String → String → Status
  exception_status action what = record {
    code = internal;
    message = labelled (labelled action " threw: ") what;
  }

  abbrev unknown_exception_status : String → Status
  unknown_exception_status action = record {
    code = internal;
    message = labelled action " threw an unknown exception";
  }

  -- A call that failed with `Aborted` after the handler had asked for an interrupt is that
  -- interrupt, the first asked for.
  pub output_of_failure : Status → List Json → Result NodeOutput
  unfolding interrupt_from_runtime_request interrupt_output
  output_of_failure s [] = err s
  output_of_failure s (request ∷ rest) = elim s.code [
    | aborted ↦ interrupt_from_runtime_request request >>= λ i. ok (interrupt_output i)
    | _ ↦ err s
  ]

  -- How a call ends, or the status that the next attempt or the caller gets.
  pub output_of_call : String → HandlerCall → Result NodeOutput
  unfolding output_of_failure
  output_of_call action (returned o) = ok o
  output_of_call action (failed s requests) = output_of_failure s requests
  output_of_call action (threw what) = err (exception_status action what)
  output_of_call action threw_unknown = err (unknown_exception_status action)

  -- A call that ends after the deadline counts as a failure whatever it returned; one that threw
  -- is reported as such.
  unfoldable pub output_of_attempt : Bool → Attempt → Result NodeOutput
  unfolding output_of_call
  output_of_attempt has_timeout a =
      let out = output_of_call "node handler" a.call in
      let late = fail deadline_exceeded "node handler exceeded timeout" in
      elim a.call [
        | threw what ↦ out
        | threw_unknown ↦ out
        | _ ↦ if has_timeout && a.timed_out then late else out
      ]

module _ ⦃J : JsonLib⦄ ⦃S : Services⦄ (g : StateGraph) (run : RunContext)
    (checks : CancelChecks) where
  abbrev pub info_for : ℕ → CheckpointTask → ℕ → ℕ → Info
  info_for index task step attempt = record {
    run_id = run.run_id;
    thread_id = run.thread_id;
    checkpoint_namespace = run.checkpoint_namespace;
    task_id = task.task_id;
    step = step;
    node_id = task.node_id;
    attempt = attempt;
    resume_value = lookup index run.resume_values;
  }

  -- `attempts - attempt` more attempts may follow; the last status is what the error handler gets.
  -- The first result ends the task: an output, or the cancellation's status.
  pub data Tried : Type 0 where
    finished : NodeOutput → Tried
    cancelled_by : Status → Tried
    exhausted : Status → Tried

  abbrev after_delay : Bool → Result (Unit {0}) → Tried → Tried
  after_delay false check again = again
  after_delay true (ok _) again = again
  after_delay true (err s) again = cancelled_by s

  -- Attempt number `attempt` of the node, and `more` after it.
  pub try_node : NodeSpec → State → ℕ → CheckpointTask → ℕ → ℕ → ℕ → Tried
  unfolding output_of_attempt
  try_node spec input index task step zero attempt = elim (checks.before_attempt index attempt) [
    | err s ↦ cancelled_by s
    | ok _ ↦
        elim (output_of_attempt spec.options.has_timeout
          (spec.handler input (info_for index task step attempt))) [
            | ok o ↦ finished o
            | err s ↦ exhausted s
          ]
  ]
  try_node spec input index task step (suc more) attempt =
      let again = try_node spec input index task step more (suc attempt) in
      elim (checks.before_attempt index attempt) [
        | err s ↦ cancelled_by s
        | ok _ ↦
            elim (output_of_attempt spec.options.has_timeout
              (spec.handler input (info_for index task step attempt))) [
                | ok o ↦ finished o
                | err s ↦
                    after_delay spec.options.has_delay (checks.during_delay index attempt) again
              ]
      ]

  -- The error handler's turn, if there is one.
  pub handle_failure : NodeSpec → State → ℕ → CheckpointTask → ℕ → Status → NodeExecution
  unfolding output_of_call
  handle_failure spec input index task step status = elim spec.options.error_handler [
    | none ↦ stopped task status
    | some handler ↦ handled task (
        output_of_call "node error handler"
          (handler status input (info_for index task step (attempts_of spec + 1))))
  ]

  pub after_tries : NodeSpec → State → ℕ → CheckpointTask → ℕ → Tried → NodeExecution
  unfolding handle_failure
  after_tries spec input index task step (finished o) = done task o
  after_tries spec input index task step (cancelled_by s) = stopped task s
  after_tries spec input index task step (exhausted s) = handle_failure spec input index task step s

  unfoldable pub execute_task : ℕ → CheckpointTask → State → ℕ → NodeExecution
  unfolding try_node after_tries
  execute_task index task input_state step = elim (lookup task.node_id g.nodes) [
    | none ↦
        stopped task (record {
          code = failed_precondition;
          message = labelled "node is unknown: " task.node_id;
        })
    | some spec ↦
        let input = input_of task.state input_state in
        after_tries spec input index task step
          (try_node spec input index task step (attempts_of spec - 1) 1)
  ]
