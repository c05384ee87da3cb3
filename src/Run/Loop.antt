-- ===== src/Run/Loop.antt =====
-- `GraphRun::run`: what comes before the first super-step, the loop over the super-steps, and the
-- end of the run.
pub mod Ends
pub mod Stored
use langgraph_cpp.Prelude.{
  ℕ, zero, suc, String, Bool, true, false, Option, none, some, List, [], ◌∷◌, Result, ok, err,
  Status, invalid_argument, failed_precondition, labelled, ◌==◌, text_key, nat_key, not, ◌&&◌, ◌||◌,
  if◌then◌else◌, is_empty, has_value, length,
}
use langgraph_cpp.Prelude.Map.{Map, lookup, insert, contains}
use langgraph_cpp.Json.{JsonLib, Json}
use langgraph_cpp.State.{Services, State}
use langgraph_cpp.State.Reducer.{apply_state_update}
use langgraph_cpp.Graph.Task.{
  CheckpointTask, normalize_next_tasks, is_terminal_next_tasks, start_node,
}
use langgraph_cpp.Graph.Types.{Command, Info}
use langgraph_cpp.Graph.Route.{next_tasks_after}
use langgraph_cpp.Checkpoint.Types.{CheckpointWrite}
use langgraph_cpp.Run.Writes.{validate_state_schema}
use langgraph_cpp.Run.Interrupts.{
  InterruptMetadata, interrupt_metadata_from_state, resume_value_for_interrupt,
  without_interrupt_metadata,
}
use langgraph_cpp.Run.Budget.{ResourceUsage, no_usage}
use langgraph_cpp.Run.Flow.{
  Flow, Act, proceeds, stops, pure, leave, read, attempt, modify, when, ◌>>=◌, ◌>>◌,
}
use langgraph_cpp.Run.Session.{
  GraphRun, Members, RunResult, Part, run_started, run_completed, put_checkpoint, fail_run,
  return_result, RunStatus, without_run_error_metadata,
}
use langgraph_cpp.Run.Step.{publish_write, super_step}

module _ ⦃J : JsonLib⦄ ⦃S : Services⦄ {σ : Type 0} (r : GraphRun σ) where
  abbrev same_or_unknown : Option ℕ → Option ℕ → Bool
  same_or_unknown (some m) (some n) = m == n
  same_or_unknown _ _ = true

  -- The task at an index is one that the interrupt may belong to, and has no answer yet.
  abbrev pub is_match : InterruptMetadata → Map ℕ Json → ℕ → CheckpointTask → Bool
  is_match i taken index t =
      not (contains index taken) && t.node_id == i.node && same_or_unknown i.order t.order

  -- The indexes of the tasks that the interrupt may belong to.
  unfoldable pub matches : InterruptMetadata → Map ℕ Json → ℕ → List CheckpointTask → List ℕ
  matches i taken index [] = []
  matches i taken index (t ∷ ts) =
      let rest = matches i taken (suc index) ts in
      if is_match i taken index t then index ∷ rest else rest

  -- The one index, or the run fails.
  unfoldable pub single_match : InterruptMetadata → List ℕ → Part r ℕ
  single_match i [] = do
    m ← read (λ m. m)
    fail_run r
        (record {
          code = failed_precondition;
          message = labelled "resume node is not pending: " i.node;
        })
        m.step i.node m.next_tasks m.pending_writes
  single_match i (index ∷ []) = pure index
  single_match i (index ∷ other ∷ more) = do
    m ← read (λ m. m)
    fail_run r
        (record {
          code = failed_precondition;
          message = labelled "resume command matches multiple pending tasks: " i.node;
        })
        m.step i.node m.next_tasks m.pending_writes

  -- Gives every interrupted task its part of the answer.
  unfoldable pub match_interrupts : Json → ℕ → List InterruptMetadata → Part r (Unit {0})
  match_interrupts value count [] = pure tt
  match_interrupts value count (i ∷ is) = do
    m ← read (λ m. m)
    index ← single_match i (matches i m.resume_values 0 m.next_tasks)
    answer ←
        attempt (resume_value_for_interrupt value i count)
          (λ e. fail_run r e m.step i.node m.next_tasks m.pending_writes)
    modify (λ m. record m { resume_values = insert index answer m.resume_values })
    match_interrupts value count is

  -- Without interrupts the answer is for the only task.
  unfoldable pub set_resume_values : Json → List InterruptMetadata → Part r (Unit {0})
  set_resume_values value [] = do
    m ← read (λ m. m)
    when (not (length m.next_tasks == 1)) (
        fail_run r
          (record {
            code = failed_precondition;
            message =
                "resume command requires a single pending node when no interrupt metadata exists";
          })
          m.step "" m.next_tasks m.pending_writes)
    modify (λ m. record m { resume_values = insert 0 value m.resume_values })
  set_resume_values value (i ∷ is) = match_interrupts value (length (i ∷ is)) (i ∷ is)

  -- A failure before the first super-step.
  unfoldable pub fail_now : {A : Type 0} → Status → Part r A
  fail_now e = do m ← read (λ m. m); fail_run r e m.step "" m.next_tasks m.pending_writes

  unfoldable pub change_state : (State → Result State) → Part r (Unit {0})
  change_state f = do
    m ← read (λ m. m)
    state ← attempt (f m.state) fail_now
    modify (λ m. record m { state = state })

  unfoldable pub apply_resume : Command → Option Json → Part r (Unit {0})
  apply_resume command none =
      fail_now (record { code = invalid_argument; message = "unsupported command" })
  apply_resume command (some value) = do
    m ← read (λ m. m)
    interrupted ← attempt (interrupt_metadata_from_state m.state) fail_now
    set_resume_values value interrupted
    change_state without_interrupt_metadata
    change_state (λ state. apply_state_update state command.update r.options.reducers)

  unfoldable pub apply_command : Option Command → Part r (Unit {0})
  apply_command none = pure tt
  apply_command (some command) = apply_resume command command.resume

  abbrev start_info : ℕ → Info
  start_info step = record {
    run_id = r.context.run_id;
    thread_id = r.context.thread_id;
    checkpoint_namespace = r.context.checkpoint_namespace;
    task_id = "";
    step = step;
    node_id = start_node;
    attempt = 1;
    resume_value = none;
  }

  -- A router of START decides on the first tasks.
  unfoldable pub route_start : Part r (Unit {0})
  route_start = do
    m ← read (λ m. m)
    routed ←
        attempt (next_tasks_after r.graph start_node m.state (start_info m.step))
          (λ e. leave (err e))
    modify (λ m. record m { next_tasks = normalize_next_tasks routed })

  abbrev schema_check : Option S.Schema → String → State → Result (Unit {0})
  schema_check = validate_state_schema r.graph r.options.reducers (publish_write r 0)

  unfoldable pub start_new : Part r (Unit {0})
  start_new = do
    m ← read (λ m. m)
    attempt (schema_check r.graph.schemas.input_schema "input" m.state) (λ e. leave (err e))
    when (contains start_node r.graph.routers) route_start

  unfoldable pub put_initial : Part r (Unit {0})
  put_initial = do
    m ← read (λ m. m)
    put_checkpoint r m.step m.next_tasks [] [] "initial" false true

  -- What precedes the loop.
  unfoldable pub prepare : Part r (Unit {0})
  prepare = do
    modify (λ m. record m {
      next_tasks = normalize_next_tasks m.next_tasks;
      status = RunStatus.completed;
      resume_values = [];
    })
    when r.write_initial_checkpoint start_new
    attempt (r.around.emit run_started) fail_now
    when r.write_initial_checkpoint put_initial
    when (not r.write_initial_checkpoint) (change_state without_run_error_metadata)
    apply_command r.options.command
    m ← read (λ m. m)
    attempt (schema_check r.graph.schemas.state_schema "state" m.state) fail_now

  abbrev is_completed : RunStatus → Bool
  is_completed RunStatus.completed = true
  is_completed _ = false

  -- What follows the loop.
  unfoldable pub finish_late : Part r (Unit {0})
  finish_late = do
    modify (λ m. record m { status = RunStatus.completed })
    m ← read (λ m. m)
    attempt (schema_check r.graph.schemas.output_schema "output" m.state)
        (λ e. fail_run r e m.step "" [] [])
    attempt (r.around.emit (run_completed m.step m.state false)) (λ e. fail_run r e m.step "" [] [])

  unfoldable pub conclude : Part r (Unit {0})
  conclude = do m ← read (λ m. m); when (not (is_completed m.status)) finish_late; return_result r

  abbrev Reached : Type 0
  Reached = Members σ × Flow (Result RunResult) (Unit {0})

  abbrev pub go_on :
      Members σ × Flow (Result RunResult) ResourceUsage
      → (ResourceUsage → Members σ → Option Reached)
      → Option Reached
  go_on (m, proceeds usage) next = next usage m
  go_on (m, stops res) next = some (m, stops res)

  -- `fuel` super-steps at most; none when they do not suffice.
  unfoldable pub run_loop : ℕ → ResourceUsage → Members σ → Option Reached
  run_loop zero usage m =
      if is_terminal_next_tasks m.next_tasks then some (m, proceeds tt) else none
  run_loop (suc fuel) usage m =
      let next = go_on (super_step r usage m) (run_loop fuel) in
      if is_terminal_next_tasks m.next_tasks then some (m, proceeds tt) else next

  abbrev pub looped : ℕ → Reached → Option Reached
  looped fuel (m, proceeds u) = run_loop fuel no_usage m
  looped fuel (m, stops res) = some (m, stops res)

  abbrev pub concluded : Option Reached → Option Reached
  concluded none = none
  concluded (some (m, proceeds u)) = some (conclude m)
  concluded (some (m, stops res)) = some (m, stops res)

  -- The whole run, on `fuel` super-steps.
  unfoldable pub run : ℕ → Members σ → Option Reached
  run fuel m = concluded (looped fuel (prepare m))
