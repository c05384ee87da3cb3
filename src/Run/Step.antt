-- ===== src/Run/Step.antt =====
-- One super-step of `GraphRun::run`: the body of its loop.
pub mod Stored
pub mod Carried
pub mod Merged
use langgraph_cpp.Prelude.{
  ℕ, ◌+◌, ◌%◌, ◌^◌, String, Bool, true, false, Option, none, some, List, [], ◌∷◌, ◌++◌, map, Result,
  ok, err, Status, ◌==◌, text_key, nat_key, not, ◌&&◌, ◌||◌, if◌then◌else◌, is_empty, has_value,
  any, stable_sort,
}
use langgraph_cpp.Json.{JsonLib}
use langgraph_cpp.State.{Services, State}
use langgraph_cpp.Graph.Task.{
  CheckpointTask, append_task, append_tasks, normalize_next_tasks, is_terminal_next_tasks,
}
use langgraph_cpp.Graph.Types.{NodeOutput, Command, Interrupt}
use langgraph_cpp.Checkpoint.Types.{CheckpointWrite}
use langgraph_cpp.Run.Execute.{NodeExecution, RunContext}
use langgraph_cpp.Run.Dispatch.{dispatch_executions}
use langgraph_cpp.Run.Tasks.{annotate_tasks}
use langgraph_cpp.Run.Writes.{
  write_order_less, write_from_execution, apply_write, route_from_write, validate_state_schema,
}
use langgraph_cpp.Run.Interrupts.{PendingInterrupt, with_interrupt_metadata}
use langgraph_cpp.Run.Budget.{ResourceUsage, consume_step}
use langgraph_cpp.Run.Flow.{
  Flow, Act, proceeds, stops, pure, leave, read, attempt, modify, when, ◌>>=◌, ◌>>◌,
}
use langgraph_cpp.Run.Session.{
  GraphRun, Members, RunResult, Part, Event, node_started, node_completed, state_updated,
  interrupt_requested, run_completed, put_checkpoint, fail_run, return_result, sync, Durability,
  RunStatus,
}
use langgraph_cpp.Run.Checks.{Checked, check_executions, answer, interrupt_in}

abbrev pub same_number : Option ℕ → Option ℕ → Bool
same_number none none = true
same_number none (some n) = false
same_number (some m) none = false
same_number (some m) (some n) = m == n

module _ ⦃J : JsonLib⦄ where
  abbrev pub front_node : List CheckpointTask → String
  front_node [] = ""
  front_node (t ∷ ts) = t.node_id

module _ ⦃J : JsonLib⦄ ⦃S : Services⦄ {σ : Type 0} (r : GraphRun σ) where
  module _ (step : ℕ) where
    -- The events of the tasks that start.
    unfoldable pub start_tasks :
        List CheckpointTask → List CheckpointWrite → List CheckpointTask → Part r (Unit {0})
    start_tasks active pending [] = pure tt
    start_tasks active pending (t ∷ ts) =
        attempt (r.around.emit (node_started step t))
          (λ e. fail_run r e step t.node_id active pending)
        >> start_tasks active pending ts

    -- The writes of the tasks that ended well beside one that failed: `kept` holds those carried
    -- over from earlier attempts.
    unfoldable pub keep_writes :
        List CheckpointTask
        → List NodeExecution
        → List CheckpointWrite
        → Part r (List CheckpointWrite)
    keep_writes next [] kept = pure kept
    keep_writes next (e ∷ es) kept = elim (answer e) [
      | none ↦ keep_writes next es kept
      | some out ↦ do
        attempt (r.around.emit (node_completed step e.task out))
            (λ s. fail_run r s step e.task.node_id next kept)
        w ←
            attempt (write_from_execution r.graph r.context e.task out)
              (λ s. fail_run r s step e.task.node_id (append_task [] e.task) kept)
        keep_writes next es (kept ++ w ∷ [])
    ]

    -- The step has failed: the failed tasks are to be run again, the others' writes are kept. With
    -- interrupts among the others, all the tasks are to be run again.
    unfoldable pub fail_step :
        List CheckpointTask
        → List CheckpointWrite
        → Checked
        → CheckpointTask × Status
        → Part r (Unit {0})
    fail_step active pending c (task, status) =
        if is_empty c.interrupts
        then (let next = append_tasks [] (map (λ f. f.0) c.failures) in
            keep_writes next c.executions pending >>= λ ws.
            fail_run r status step task.node_id next ws)
        else fail_run r status step task.node_id active pending

    -- The events of the tasks that ended without an interrupt.
    unfoldable pub complete_tasks :
        List CheckpointTask → List CheckpointWrite → List NodeExecution → Part r (Unit {0})
    complete_tasks active pending [] = pure tt
    complete_tasks active pending (e ∷ es) = elim (answer e) [
      | none ↦ complete_tasks active pending es
      | some out ↦
          when (not (has_value out.interrupt)) (
            attempt (r.around.emit (node_completed step e.task out))
              (λ s. fail_run r s step e.task.node_id active pending))
          >> complete_tasks active pending es
    ]

    -- The writes of the step; with `persist`, a checkpoint after each task but the last holds the
    -- writes so far and the tasks that remain.
    unfoldable pub collect_writes :
        Bool
        → List CheckpointWrite
        → List NodeExecution
        → List CheckpointWrite
        → Part r (List CheckpointWrite)
    collect_writes persist pending [] writes = pure writes
    collect_writes persist pending (e ∷ es) writes = elim (answer e) [
      | none ↦ collect_writes persist pending es writes
      | some out ↦ do
        w ←
            attempt (write_from_execution r.graph r.context e.task out)
              (λ s. fail_run r s step e.task.node_id (e.task ∷ []) pending)
        when (persist && not (is_empty es)) (
            put_checkpoint r step (append_tasks [] (map (λ x. x.task) es)) [] (writes ++ w ∷ [])
              "task_writes" false true)
        collect_writes persist pending es (writes ++ w ∷ [])
    ]

    abbrev pub publish_write : CheckpointWrite → ℕ → Result (Unit {0})
    publish_write w n = r.around.emit (state_updated n w)

    -- One write in the run's state.
    unfoldable pub merge_write :
        List CheckpointTask → List CheckpointWrite → CheckpointWrite → Part r (Unit {0})
    merge_write active pending w = do
      m ← read (λ m. m)
      let now = apply_write r.graph r.options.reducers publish_write step w m.state
      modify (λ m. record m { state = now.0 })
      attempt now.1 (λ s. fail_run r s step w.node_id active pending)

    unfoldable pub merge_all :
        List CheckpointTask → List CheckpointWrite → List CheckpointWrite → Part r (Unit {0})
    merge_all active pending [] = pure tt
    merge_all active pending (w ∷ ws) = merge_write active pending w >> merge_all active pending ws

    unfoldable pub route_all :
        List CheckpointTask
        → List CheckpointWrite
        → List CheckpointTask
        → Part r (List CheckpointTask)
    route_all active [] next = pure next
    route_all active (w ∷ ws) next = do
      m ← read (λ m. m)
      routed ←
          attempt (route_from_write r.graph r.context m.state step w next)
            (λ s. fail_run r s step w.node_id active [])
      route_all active ws routed

    -- The run is complete: its state has the output's form.
    unfoldable pub complete_run : String → List CheckpointTask → Bool → Part r (Unit {0})
    complete_run node next by_parent_command = do
      m ← read (λ m. m)
      attempt
          (validate_state_schema r.graph r.options.reducers publish_write
            r.graph.schemas.output_schema "output" m.state)
          (λ s. fail_run r s step node next [])
      modify (λ m. record m { status = RunStatus.completed })
      attempt (r.around.emit (run_completed step m.state by_parent_command))
          (λ s. fail_run r s step node next [])

    unfoldable pub parent_step : NodeExecution → Command → List CheckpointWrite → Part r (Unit {0})
    parent_step e command writes = do
      modify (λ m. record m {
        step = step;
        pending_writes = [];
        next_tasks = [];
        parent_command = some command;
      })
      complete_run e.task.node_id [] true
      put_checkpoint r step [] writes [] "parent_command" true true
      return_result r

    abbrev pub is_interrupted : List (NodeExecution × Interrupt) → CheckpointWrite → Bool
    is_interrupted paused w =
        any (λ p. w.node_id == p.0.task.node_id && same_number w.order p.0.task.order) paused

    unfoldable pub others :
        List (NodeExecution × Interrupt) → List CheckpointWrite → List CheckpointWrite
    others paused [] = []
    others paused (w ∷ ws) =
        let rest = others paused ws in if is_interrupted paused w then rest else w ∷ rest

    abbrev pub pending_interrupt : NodeExecution × Interrupt → PendingInterrupt
    pending_interrupt p = record {
      interrupt = p.1;
      node = p.0.task.node_id;
      order = p.0.task.order;
    }

    unfoldable pub request_interrupts :
        List CheckpointTask → List (NodeExecution × Interrupt) → Part r (Unit {0})
    request_interrupts next [] = pure tt
    request_interrupts next ((e, i) ∷ ps) =
        attempt (r.around.emit (interrupt_requested step e.task.node_id i))
          (λ s. fail_run r s step e.task.node_id next [])
        >> request_interrupts next ps

    -- The run pauses: the interrupted tasks come first among the next ones, and the interrupts are
    -- a part of the stored state.
    unfoldable pub pause_step :
        String
        → List CheckpointTask
        → List (NodeExecution × Interrupt)
        → List CheckpointWrite
        → Part r (Unit {0})
    pause_step node active paused writes = do
      routed ← route_all active (others paused writes) []
      let next = append_tasks (append_tasks [] (map (λ p. p.0.task) paused)) routed
      modify (λ m. record m { next_tasks = next; step = step })
      m ← read (λ m. m)
      marked ←
          attempt (with_interrupt_metadata m.state (map pending_interrupt paused) step)
            (λ s. fail_run r s step node [] [])
      modify (λ m. record m { state = marked; pending_writes = [] })
      put_checkpoint r step next writes [] "interrupt" true true
      request_interrupts next paused
      modify (λ m. record m { status = RunStatus.paused })
      return_result r

    unfoldable pub route_step :
        String → List CheckpointTask → List CheckpointWrite → Part r (Unit {0})
    route_step node active writes = do
      next ← route_all active writes []
      modify (λ m. record m { next_tasks = next; step = step; pending_writes = [] })
      let terminal = is_terminal_next_tasks next
      when terminal (complete_run node next false)
      put_checkpoint r step next writes [] (if terminal then "completion" else "step") terminal true
      modify (λ m. record m { resume_values = [] })

    abbrev is_sync : Durability → Bool
    is_sync sync = true
    is_sync _ = false

    -- Which way a step that has merged its writes ends.
    unfoldable pub end_step :
        List CheckpointTask
        → List CheckpointWrite
        → List (NodeExecution × Interrupt)
        → Option (NodeExecution × Command)
        → Part r (Unit {0})
    end_step active writes paused (some (e, command)) = parent_step e command writes
    end_step active writes [] none = route_step (front_node active) active writes
    end_step active writes ((e, i) ∷ ps) none =
        pause_step e.task.node_id active ((e, i) ∷ ps) writes

    -- The collected writes, in the order of their numbers.
    unfoldable pub commit_writes :
        List CheckpointTask
        → List CheckpointWrite
        → Checked
        → List CheckpointWrite
        → Part r (Unit {0})
    commit_writes active pending c collected = do
      let writes = stable_sort write_order_less collected
      merge_all active pending writes
      end_step active writes c.interrupts c.parent_command

    unfoldable pub commit_step :
        List CheckpointTask → List CheckpointWrite → Checked → Part r (Unit {0})
    commit_step active pending c = do
      complete_tasks active pending c.executions
      let persist =
          is_sync r.options.durability && is_empty c.interrupts && not (has_value c.parent_command)
      collected ← collect_writes persist pending c.executions pending
      commit_writes active pending c collected

    unfoldable pub finish_step :
        List CheckpointTask
        → List CheckpointWrite
        → Checked
        → List (CheckpointTask × Status)
        → Part r (Unit {0})
    finish_step active pending c [] = commit_step active pending c
    finish_step active pending c (first ∷ rest) = fail_step active pending c first

    -- The tasks run; what they see is the state before the step.
    unfoldable pub run_tasks : List CheckpointTask → List CheckpointWrite → Part r (Unit {0})
    run_tasks active pending = do
      start_tasks active pending active
      m ← read (λ m. m)
      let executions =
          dispatch_executions r.graph (record r.context { resume_values = m.resume_values })
            (r.around.checks_at step) (r.around.dispatch_at step) m.state step active
      let c = check_executions r.allow_parent_command executions
      finish_step active pending c c.failures

  abbrev pub next_number : ℕ → ℕ
  next_number step = (step + 1) % 2 ^ 64

  -- The usage of the step budget goes in and comes out.
  unfoldable pub super_step : ResourceUsage → Part r ResourceUsage
  super_step usage = do
    modify (λ m. record m { next_tasks = normalize_next_tasks m.next_tasks })
    m ← read (λ m. m)
    let step = next_number m.step
    let active = annotate_tasks r.context step m.next_tasks
    attempt (r.around.cancelled_at step)
        (λ e. fail_run r e step (front_node active) active m.pending_writes)
    spent ←
        attempt (consume_step r.options.limits 1 (r.around.expired_at step) usage usage)
          (λ e. fail_run r e step (front_node active) active m.pending_writes)
    run_tasks step active m.pending_writes
    pure spent
