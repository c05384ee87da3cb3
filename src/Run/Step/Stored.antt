-- ===== src/Run/Step/Stored.antt =====
-- A super-step that ends the run has stored the state that the run returns.
use langgraph_cpp.Prelude.{
  ℕ, String, Bool, true, false, Option, none, some, List, [], ◌∷◌, Result, Status, ◌≡◌, refl, inl,
  inr, if◌then◌else◌, Option-cases, is_empty,
}
use langgraph_cpp.Json.{JsonLib}
use langgraph_cpp.State.{Services}
use langgraph_cpp.Graph.Task.{CheckpointTask, is_terminal_next_tasks}
use langgraph_cpp.Graph.Types.{Command, Interrupt}
use langgraph_cpp.Checkpoint.Types.{CheckpointWrite}
use langgraph_cpp.Run.Execute.{NodeExecution}
use langgraph_cpp.Run.Budget.{ResourceUsage}
use langgraph_cpp.Run.Flow.{◌>>=◌, attempt}
use langgraph_cpp.Run.Flow.Ensures.{
  Ensures, Keeps, Ensures-bind, Ensures-pure, Ensures-modify, Ensures-weaken, Ensures-both,
  Ensures-if, Keeps-pure, Keeps-read, Keeps-attempt, Keeps-bind, Keeps-modify, Keeps-when,
  Keeps-bind, Keeps-attempt,
}
use langgraph_cpp.Run.Session.{GraphRun, Members, Part, put_checkpoint, fail_run}
use langgraph_cpp.Run.Session.Frame.{put_checkpoint-Framed}
use langgraph_cpp.Run.Session.Stored.{
  SaverLaws, Stored, Returned, put_checkpoint-Stored, put_checkpoint-Returned, return_result-Stored,
  fail_run-Returned, should_store-terminal,
}
use langgraph_cpp.Run.Checks.{Checked, answer}
use langgraph_cpp.Run.Step.{
  start_tasks, keep_writes, fail_step, complete_tasks, collect_writes, merge_write, merge_all,
  route_all, complete_run, parent_step, request_interrupts, pause_step, route_step, end_step,
  commit_step, commit_writes, finish_step, run_tasks, super_step,
}

module _ ⦃J : JsonLib⦄ ⦃S : Services⦄ {σ : Type 0} (r : GraphRun σ)
    (laws : SaverLaws r.around.saver) (has : r.options.has_checkpointer ≡ true) where
  abbrev Fine : {A : Type 0} → Part r A → Type 0
  Fine m = Keeps (λ _. Unit {0}) (Returned r laws has) m

  Fine-bind :
      {A B : Type 0} {N : B → Members σ → Type 0} {m : Part r A} {f : A → Part r B}
      → Fine m
      → ((a : A) → Ensures (λ _. Unit {0}) N (Returned r laws has) (f a))
      → Ensures (λ _. Unit {0}) N (Returned r laws has) (m >>= f)
  Fine-bind h k = Ensures-bind (λ _ _. Unit {0}) _ _ h k

  -- A run that the step leaves with nothing to do has stored its state.
  abbrev Kept : Members σ → Type 0
  Kept m = is_terminal_next_tasks m.next_tasks ≡ true → Stored r laws has m

  abbrev Ending : Part r (Unit {0}) → Type 0
  Ending m = Ensures (λ _. Unit {0}) (λ _. Kept) (Returned r laws has) m

  module _ (step : ℕ) where
    -- The run goes on, or fails.
    checked :
        {P : Members σ → Type 0} {A : Type 0} (res : Result A) (node : String)
        (next : List CheckpointTask) (pending : List CheckpointWrite)
        → Keeps P (Returned r laws has) (attempt res (λ e. fail_run r e step node next pending))
    checked res node next pending =
        Keeps-attempt _ _ (λ e. fail_run-Returned r laws has e step node next pending)

    start_tasks-Returned :
        (active : List CheckpointTask) (pending : List CheckpointWrite) (ts : List CheckpointTask)
        → Fine (start_tasks r step active pending ts)
    unfolding start_tasks
    start_tasks-Returned active pending [] = Keeps-pure tt
    start_tasks-Returned active pending (t ∷ ts) =
        Fine-bind (checked _ _ _ _) (λ u. start_tasks-Returned active pending ts)

    keep_writes-Returned :
        (next : List CheckpointTask) (es : List NodeExecution) (kept : List CheckpointWrite)
        → Fine (keep_writes r step next es kept)
    unfolding keep_writes
    keep_writes-Returned next [] kept = Keeps-pure kept
    keep_writes-Returned next (e ∷ es) kept = elim (Option-cases (answer e)) [
      | inl none_left ↦ rw (none_left, keep_writes) (keep_writes-Returned next es kept)
      | inr (out, answered) ↦
          rw (answered, keep_writes)
            (Fine-bind (checked _ _ _ _)
              λ u. Fine-bind (checked _ _ _ _) λ w. keep_writes-Returned next es _)
    ]

    complete_tasks-Returned :
        (active : List CheckpointTask) (pending : List CheckpointWrite) (es : List NodeExecution)
        → Fine (complete_tasks r step active pending es)
    unfolding complete_tasks
    complete_tasks-Returned active pending [] = Keeps-pure tt
    complete_tasks-Returned active pending (e ∷ es) = elim (Option-cases (answer e)) [
      | inl none_left ↦ rw (none_left, complete_tasks) (complete_tasks-Returned active pending es)
      | inr (out, answered) ↦
          rw (answered, complete_tasks)
            (Fine-bind (Keeps-when _ _ (checked _ _ _ _))
              λ u. complete_tasks-Returned active pending es)
    ]

    collect_writes-Returned :
        (persist : Bool) (pending : List CheckpointWrite) (es : List NodeExecution)
        (writes : List CheckpointWrite)
        → Fine (collect_writes r step persist pending es writes)
    unfolding collect_writes
    collect_writes-Returned persist pending [] writes = Keeps-pure writes
    collect_writes-Returned persist pending (e ∷ es) writes = elim (Option-cases (answer e)) [
      | inl none_left ↦
          rw (none_left, collect_writes) (collect_writes-Returned persist pending es writes)
      | inr (out, answered) ↦
          rw (answered, collect_writes)
            (Fine-bind (checked _ _ _ _) λ w.
              Fine-bind (Keeps-when _ _ (put_checkpoint-Returned r laws has step _ _ _ _ _ _))
                λ u. collect_writes-Returned persist pending es _)
    ]

    merge_all-Returned :
        (active : List CheckpointTask) (pending ws : List CheckpointWrite)
        → Fine (merge_all r step active pending ws)
    unfolding merge_all merge_write
    merge_all-Returned active pending [] = Keeps-pure tt
    merge_all-Returned active pending (w ∷ ws) =
        Fine-bind
          (Fine-bind (Keeps-read _) λ m. Fine-bind (Keeps-modify _ (λ m h. h)) λ u. checked _ _ _ _)
          (λ u. merge_all-Returned active pending ws)

    route_all-Returned :
        (active : List CheckpointTask) (ws : List CheckpointWrite) (next : List CheckpointTask)
        → Fine (route_all r step active ws next)
    unfolding route_all
    route_all-Returned active [] next = Keeps-pure next
    route_all-Returned active (w ∷ ws) next =
        Fine-bind (Keeps-read _)
          λ m. Fine-bind (checked _ _ _ _) λ routed. route_all-Returned active ws routed

    complete_run-Keeps :
        (P : List CheckpointTask → Type 0) (node : String) (next : List CheckpointTask)
        (by_parent : Bool)
        → Keeps
            (λ m. P m.next_tasks)
            (Returned r laws has)
            (complete_run r step node next by_parent)
    unfolding complete_run
    complete_run-Keeps P node next by_parent = Keeps-bind _ _ (Keeps-read _) λ m.
        Keeps-bind _ _ (checked _ _ _ _)
          λ u. Keeps-bind _ _ (Keeps-modify _ (λ m h. h)) λ u. checked _ _ _ _

    request_interrupts-Stored :
        (next : List CheckpointTask) (ps : List (NodeExecution × Interrupt))
        → Keeps (Stored r laws has) (Returned r laws has) (request_interrupts r step next ps)
    unfolding request_interrupts
    request_interrupts-Stored next [] = Keeps-pure tt
    request_interrupts-Stored next ((e, i) ∷ ps) =
        Keeps-bind _ _ (checked _ _ _ _) (λ u. request_interrupts-Stored next ps)

    put-terminal :
        {P : Members σ → Type 0} (next : List CheckpointTask) (writes : List CheckpointWrite)
        (source : String)
        → Ensures P
            (λ _. Stored r laws has)
            (Returned r laws has)
            (put_checkpoint r step next writes [] source true true)
    put-terminal next writes source =
        put_checkpoint-Stored r laws has step next writes [] source true true
          (should_store-terminal r laws has source)

    parent_step-Ending :
        (e : NodeExecution) (command : Command) (writes : List CheckpointWrite)
        → Ending (parent_step r step e command writes)
    unfolding parent_step
    parent_step-Ending e command writes = Fine-bind (Keeps-modify _ (λ m h. h)) λ u.
        Fine-bind (complete_run-Keeps (λ _. Unit {0}) _ _ _) λ u.
          Ensures-bind (λ _. Stored r laws has) _ _ (put-terminal _ _ _)
            λ u. return_result-Stored r laws has

    pause_step-Ending :
        (node : String) (active : List CheckpointTask) (paused : List (NodeExecution × Interrupt))
        (writes : List CheckpointWrite)
        → Ending (pause_step r step node active paused writes)
    unfolding pause_step
    pause_step-Ending node active paused writes = Fine-bind (route_all-Returned _ _ _) λ routed.
        Fine-bind (Keeps-modify _ (λ m h. h)) λ u. Fine-bind (Keeps-read _) λ m.
          Fine-bind (checked _ _ _ _) λ marked. Fine-bind (Keeps-modify _ (λ m h. h)) λ u.
            Ensures-bind (λ _. Stored r laws has) _ _ (put-terminal _ _ _)
              λ u.
                Ensures-bind (λ _. Stored r laws has) _ _ (request_interrupts-Stored _ _)
                  λ u.
                    Ensures-bind (λ _. Stored r laws has) _ _ (Keeps-modify _ (λ m h. h))
                      λ u. return_result-Stored r laws has

    put_step-Kept :
        (next : List CheckpointTask) (writes : List CheckpointWrite) (terminal : Bool)
        → Ensures
            (λ m. is_terminal_next_tasks m.next_tasks ≡ terminal)
            (λ _. Kept)
            (Returned r laws has)
            (put_checkpoint r step next writes []
              (if terminal then "completion" else "step")
              terminal
              true)
    put_step-Kept next writes true =
        Ensures-weaken _ (λ u m h k. h) (put-terminal next writes "completion")
    put_step-Kept next writes false =
        Ensures-weaken _ (λ u m h k. absurd cc)
          (Ensures-both _ (put_checkpoint-Returned r laws has step next writes [] "step" false true)
            (put_checkpoint-Framed r (λ ts. is_terminal_next_tasks ts ≡ false) step next writes []
              "step" false true))

    route_step-Ending :
        (node : String) (active : List CheckpointTask) (writes : List CheckpointWrite)
        → Ending (route_step r step node active writes)
    unfolding route_step
    route_step-Ending node active writes = Fine-bind (route_all-Returned _ _ _) λ next.
        let same : Members σ → Type 0 =
          (λ m. is_terminal_next_tasks m.next_tasks ≡ is_terminal_next_tasks next) in
        Ensures-bind (λ _. same) _ _ (Ensures-modify _ (λ m h. refl))
          λ u.
            Ensures-bind (λ _. same) _ _
              (Keeps-when _ _ (
                complete_run-Keeps (λ ts. is_terminal_next_tasks ts ≡ is_terminal_next_tasks next) _
                  _ _))
              λ u.
                Ensures-bind (λ _. Kept) _ _
                  (put_step-Kept next writes (is_terminal_next_tasks next))
                  λ u. Keeps-modify _ (λ m h. h)

    end_step-Ending :
        (active : List CheckpointTask) (writes : List CheckpointWrite)
        (paused : List (NodeExecution × Interrupt)) (leader : Option (NodeExecution × Command))
        → Ending (end_step r step active writes paused leader)
    unfolding end_step
    end_step-Ending active writes paused (some (e, command)) = parent_step-Ending e command writes
    end_step-Ending active writes [] none = route_step-Ending _ active writes
    end_step-Ending active writes ((e, i) ∷ ps) none =
        pause_step-Ending _ active ((e, i) ∷ ps) writes

    commit_writes-Ending :
        (active : List CheckpointTask) (pending : List CheckpointWrite) (c : Checked)
        (collected : List CheckpointWrite)
        → Ending (commit_writes r step active pending c collected)
    unfolding commit_writes
    commit_writes-Ending active pending c collected =
        Fine-bind (merge_all-Returned _ _ _) λ u. end_step-Ending active _ _ _

    commit_step-Ending :
        (active : List CheckpointTask) (pending : List CheckpointWrite) (c : Checked)
        → Ending (commit_step r step active pending c)
    unfolding commit_step
    commit_step-Ending active pending c = Fine-bind (complete_tasks-Returned _ _ _) λ u.
        Fine-bind (collect_writes-Returned _ _ _ _) λ ws. commit_writes-Ending active pending c ws

    finish_step-Ending :
        (active : List CheckpointTask) (pending : List CheckpointWrite) (c : Checked)
        (failures : List (CheckpointTask × Status))
        → Ending (finish_step r step active pending c failures)
    unfolding finish_step fail_step
    finish_step-Ending active pending c [] = commit_step-Ending active pending c
    finish_step-Ending active pending c ((task, s) ∷ rest) =
        Ensures-if (is_empty c.interrupts) _ _
          (Fine-bind (keep_writes-Returned _ _ _) λ ws. fail_run-Returned r laws has s step _ _ _)
          (fail_run-Returned r laws has s step _ _ _)

    run_tasks-Ending :
        (active : List CheckpointTask) (pending : List CheckpointWrite)
        → Ending (run_tasks r step active pending)
    unfolding run_tasks
    run_tasks-Ending active pending =
        Fine-bind (start_tasks-Returned _ _ _)
          λ u. Fine-bind (Keeps-read _) λ m. finish_step-Ending active pending _ _

  -- A super-step that makes the run return a result has stored the state of that result, and one
  -- after which nothing is left to do has stored the run's state.
  pub super_step-Stored :
      (usage : ResourceUsage)
      → Ensures
          (λ _. Unit {0})
          (λ _ m. is_terminal_next_tasks m.next_tasks ≡ true → Stored r laws has m)
          (Returned r laws has)
          (super_step r usage)
  unfolding super_step
  super_step-Stored usage = Fine-bind (Keeps-modify _ (λ m h. h)) λ u. Fine-bind (Keeps-read _) λ m.
      Fine-bind (checked _ _ _ _ _) λ u. Fine-bind (checked _ _ _ _ _) λ spent.
        Ensures-bind (λ _. Kept) _ _ (run_tasks-Ending _ _ _) λ u. Ensures-pure spent (λ m h. h)
