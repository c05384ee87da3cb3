-- ===== src/Run/Checks.antt =====
-- The checks of `GraphRun::run` on the executions of a super-step, before any of them takes effect.
use langgraph_cpp.Prelude.{
  String, Bool, true, false, Option, none, some, List, [], ◌∷◌, ◌++◌, map, ok, err, Status,
  StatusCode, internal, invalid_argument, failed_precondition, not, ◌&&◌, ◌||◌, if◌then◌else◌,
  is_empty, has_value,
}
use langgraph_cpp.Json.{JsonLib}
use langgraph_cpp.Graph.Task.{CheckpointTask}
use langgraph_cpp.Graph.Types.{NodeOutput, Command, current, parent, Interrupt}
use langgraph_cpp.Run.Execute.{NodeExecution}

module _ ⦃J : JsonLib⦄ where
  abbrev pub is_ok : NodeExecution → Bool
  is_ok e = elim e.status [ ok _ ↦ true | err _ ↦ false ]

  -- `execution.status_ = status;`
  abbrev pub fail_with : StatusCode → String → NodeExecution → NodeExecution
  fail_with code message e = record e { status = err (record { code = code; message = message }) }

  abbrev pub resumes : Option Command → Bool
  resumes none = false
  resumes (some c) = has_value c.resume

  abbrev pub for_parent : Option Command → Bool
  for_parent none = false
  for_parent (some c) = elim c.graph [ parent ↦ true | current ↦ false ]

  -- What an execution that ended well must not contain.
  unfoldable pub check_output : Bool → NodeExecution → NodeOutput → NodeExecution
  check_output allow_parent e out =
      if has_value out.interrupt && has_value out.command
      then fail_with invalid_argument "node output cannot combine interrupt and command routing" e
      else if resumes out.command
      then fail_with invalid_argument "node returned unsupported resume command" e
      else if for_parent out.command && not allow_parent
      then fail_with failed_precondition "node returned parent command outside a subgraph" e
      else e

  unfoldable pub check_execution : Bool → NodeExecution → NodeExecution
  check_execution allow_parent e = elim e.status [
    | err _ ↦ e
    | ok _ ↦ elim e.output [
      | none ↦ fail_with internal "node execution missing output" e
      | some out ↦ check_output allow_parent e out
    ]
  ]

  -- The output of an execution whose status is ok.
  abbrev pub answer : NodeExecution → Option NodeOutput
  answer e = elim e.status [ ok _ ↦ e.output | err _ ↦ none ]

  abbrev interrupt_of : Option NodeOutput → Option Interrupt
  interrupt_of none = none
  interrupt_of (some out) = out.interrupt

  abbrev command_of : Option NodeOutput → Option Command
  command_of none = none
  command_of (some out) = out.command

  abbrev pub interrupt_in : NodeExecution → Option Interrupt
  interrupt_in e = interrupt_of (answer e)

  abbrev pub command_in : NodeExecution → Option Command
  command_in e = command_of (answer e)

  -- The failed executions: their tasks, each with its status.
  unfoldable pub failures_in : List NodeExecution → List (CheckpointTask × Status)
  failures_in [] = []
  failures_in (e ∷ es) =
      let rest = failures_in es in elim e.status [ ok _ ↦ rest | err s ↦ (e.task, s) ∷ rest ]

  -- What the checks make of the executions that had ended well.
  unfoldable pub checked_again : Bool → List NodeExecution → List NodeExecution
  checked_again allow_parent [] = []
  checked_again allow_parent (e ∷ es) =
      let rest = checked_again allow_parent es in
      if is_ok e then check_execution allow_parent e ∷ rest else rest

  -- A second parent command fails: `seen` tells whether there was one before.
  unfoldable pub fail_later_parents : Bool → List NodeExecution → List NodeExecution
  fail_later_parents seen [] = []
  fail_later_parents seen (e ∷ es) =
      let has = for_parent (command_in e) in
      let rest = fail_later_parents (seen || has) es in
      (if seen && has
        then fail_with failed_precondition
            "multiple parent commands in one super-step are not supported" e
        else e)
      ∷ rest

  unfoldable pub later_parents : Bool → List NodeExecution → List NodeExecution
  later_parents seen [] = []
  later_parents seen (e ∷ es) =
      let has = for_parent (command_in e) in
      let rest = later_parents (seen || has) es in
      if seen && has
      then fail_with failed_precondition
          "multiple parent commands in one super-step are not supported" e
        ∷ rest
      else rest

  -- The task and the command of the first parent command.
  unfoldable pub find_parent : List NodeExecution → Option (NodeExecution × Command)
  find_parent [] = none
  find_parent (e ∷ es) =
      let rest = find_parent es in
      elim (command_in e) [
        | none ↦ rest
        | some c ↦ if for_parent (some c) then some (e, c) else rest
      ]

  unfoldable pub interrupts_in : List NodeExecution → List (NodeExecution × Interrupt)
  interrupts_in [] = []
  interrupts_in (e ∷ es) =
      let rest = interrupts_in es in elim (interrupt_in e) [ none ↦ rest | some i ↦ (e, i) ∷ rest ]

  abbrev parent_with_interrupts : NodeExecution → NodeExecution
  parent_with_interrupts =
      fail_with failed_precondition
        "parent command cannot be combined with interrupts in one super-step"

  -- The one parent command that is left fails where there are interrupts too.
  unfoldable pub fail_parent : Bool → NodeExecution → NodeExecution
  fail_parent interrupted e =
      if interrupted && for_parent (command_in e) then parent_with_interrupts e else e

  unfoldable pub failed_parent : Bool → Option (NodeExecution × Command) → List NodeExecution
  failed_parent false p = []
  failed_parent true none = []
  failed_parent true (some (e, c)) = parent_with_interrupts e ∷ []

  -- What the checks make of the executions: `failures` in the order in which they are found.
  pub record Checked : Type 0 where
    pub executions : List NodeExecution
    pub failures : List (CheckpointTask × Status)
    pub interrupts : List (NodeExecution × Interrupt)
    pub parent_command : Option (NodeExecution × Command)

  unfoldable pub check_executions : Bool → List NodeExecution → Checked
  check_executions allow_parent es =
      let first = map (check_execution allow_parent) es in
      let paused = interrupts_in first in
      let leader = find_parent first in
      let interrupted = not (is_empty paused) in
      record {
        executions = map (fail_parent interrupted) (fail_later_parents false first);
        failures = failures_in (
            es
            ++ checked_again allow_parent es
            ++ later_parents false first
            ++ failed_parent interrupted leader);
        interrupts = paused;
        parent_command = leader;
      }
