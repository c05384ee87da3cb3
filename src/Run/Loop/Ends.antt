-- ===== src/Run/Loop/Ends.antt =====
-- The loop of a run ends, whatever the graph: the budget of steps bounds it.
use langgraph_cpp.Prelude.{
  ℕ, zero, suc, ◌+◌, ◌≤◌, ◌≡◌, refl, ap, String, Option, some, List, Result, Status, arith,
  Bool-cases, inl, inr,
}
use langgraph_cpp.Json.{JsonLib}
use langgraph_cpp.State.{Services}
use langgraph_cpp.Graph.Task.{CheckpointTask, is_terminal_next_tasks}
use langgraph_cpp.Checkpoint.Types.{CheckpointWrite}
use langgraph_cpp.Run.Budget.{ResourceUsage, no_usage}
use langgraph_cpp.Run.Budget.Bounds.{step_ceiling, consume_step-ceiling}
use langgraph_cpp.Run.Flow.{Flow, proceeds, stops}
use langgraph_cpp.Run.Flow.Ensures.{
  Holds, Ensures, Ensures-bind, Ensures-after, Ensures-attempt, Ensures-pure, Keeps-known,
}
use langgraph_cpp.Run.Session.{GraphRun, Members, RunResult, fail_run, return_result}
use langgraph_cpp.Run.Step.{super_step}
use langgraph_cpp.Run.Loop.{run_loop, go_on, looped, concluded, prepare, conclude, run}

module _ ⦃J : JsonLib⦄ ⦃S : Services⦄ {σ : Type 0} (r : GraphRun σ) where
  -- `fail_run` always returns.
  pub fail_run-leaves :
      {A : Type 0} {P : Members σ → Type 0} {N : A → Members σ → Type 0} (s : Status) (step : ℕ)
      (node : String) (next : List CheckpointTask) (pending : List CheckpointWrite)
      → Ensures P N (λ _ _. Unit {0}) (fail_run r {A = A} s step node next pending)
  unfolding fail_run return_result
  fail_run-leaves s step node next pending = Ensures-after _ _ λ u. record { at = λ m h. tt }

  -- A super-step that comes through has been granted by the budget.
  super_step-consumes :
      (usage : ResourceUsage)
      → Ensures
          (λ _. Unit {0})
          (λ spent _.
            (spent.steps ≡ usage.steps + 1)
            × (usage.steps + 1 ≤ step_ceiling r.options.limits.max_steps))
          (λ _ _. Unit {0})
          (super_step r usage)
  unfolding super_step
  super_step-consumes usage = Ensures-after _ _ λ _. Ensures-after _ _ λ m. Ensures-after _ _ λ _.
      Ensures-bind
        (λ spent _.
          (spent.steps ≡ usage.steps + 1)
          × (usage.steps + 1 ≤ step_ceiling r.options.limits.max_steps))
        _ _
        (Ensures-attempt _ _ (λ spent e s p. consume_step-ceiling r.options.limits _ usage spent e)
          (λ e. fail_run-leaves e _ _ _ _))
        (λ spent.
          Ensures-bind (λ _ _. _) _ _ (Keeps-known _ _) (λ _. Ensures-pure spent (λ s h. h)))

  abbrev IsSpent : ResourceUsage → ResourceUsage → Members σ → Type 0
  IsSpent usage spent m =
      (spent.steps ≡ usage.steps + 1) × (usage.steps + 1 ≤ step_ceiling r.options.limits.max_steps)

  abbrev Reached : Type 0
  Reached = Members σ × Flow (Result RunResult) (Unit {0})

  -- Every fuel from `n` on gives the one result.
  abbrev EndsFrom : ℕ → (ℕ → Option Reached) → Type 0
  EndsFrom n f = (res : Reached) × ((fuel : ℕ) → n ≤ fuel → f fuel ≡ some res)

  from_suc :
      (n : ℕ) (f : ℕ → Option Reached) (res : Reached)
      → ((k : ℕ) → n ≤ k → f (suc k) ≡ some res)
      → (fuel : ℕ) → suc n ≤ fuel
      → f fuel ≡ some res
  from_suc n f res h zero k = absurd (omega (arith, k))
  from_suc n f res h (suc fuel) k = h fuel (omega (arith, k))

  go_on-ends :
      (n : ℕ) (usage : ResourceUsage) (p : Members σ × Flow (Result RunResult) ResourceUsage)
      → Holds (IsSpent usage) (λ _ _. Unit {0}) p
      → ((spent : ResourceUsage) (m : Members σ)
          → IsSpent usage spent m
          → EndsFrom n (λ fuel. run_loop r fuel spent m))
      → EndsFrom n (λ fuel. go_on r p (run_loop r fuel))
  go_on-ends n usage (m, stops res) h k = ((m, stops res), λ fuel e. refl)
  go_on-ends n usage (m, proceeds spent) h k = k spent m h

  loop_step-ends :
      (n : ℕ) (usage : ResourceUsage) (m : Members σ)
      → ((spent : ResourceUsage) (m : Members σ)
          → IsSpent usage spent m
          → EndsFrom n (λ fuel. run_loop r fuel spent m))
      → EndsFrom (suc n) (λ fuel. run_loop r fuel usage m)
  unfolding run_loop
  loop_step-ends n usage m k = elim (Bool-cases (is_terminal_next_tasks m.next_tasks)) [
    | inl over ↦ ((m, proceeds tt), from_suc n _ _ (λ k e. rw (over, run_loop) refl))
    | inr live ↦
        let (res, e) =
          go_on-ends n usage (super_step r usage m) ((super_step-consumes usage).at m tt) k in
        (res, from_suc n _ _ (λ k h. rw (live, run_loop) (e k h)))
  ]

  run_loop-ends :
      (n : ℕ) (usage : ResourceUsage) (m : Members σ)
      → step_ceiling r.options.limits.max_steps ≤ n + usage.steps
      → EndsFrom (suc n) (λ fuel. run_loop r fuel usage m)
  run_loop-ends zero usage m h =
      loop_step-ends zero usage m (λ spent m' k. absurd (omega (arith, h, k.1)))
  run_loop-ends (suc n) usage m h =
      loop_step-ends (suc n) usage m
        (λ spent m' k. run_loop-ends n spent m' (omega (arith, h, k.0)))

  looped-ends :
      (n : ℕ) (p : Reached)
      → step_ceiling r.options.limits.max_steps ≤ n
      → EndsFrom (suc n) (λ fuel. looped r fuel p)
  looped-ends n (m, stops res) h = ((m, stops res), λ fuel e. refl)
  looped-ends n (m, proceeds u) h = run_loop-ends n no_usage m (omega (arith, h))

  concluded-ends :
      (n : ℕ) (res : Reached) (f : ℕ → Option Reached)
      → ((fuel : ℕ) → n ≤ fuel → f fuel ≡ concluded r (some res))
      → EndsFrom n f
  concluded-ends n (m, proceeds u) f e = (conclude r m, e)
  concluded-ends n (m, stops res) f e = ((m, stops res), e)

  -- A run ends after at most as many super-steps as its budget allows, 2^64 - 1 where it sets no
  -- limit, even when the graph's routes lead around for ever: with a fuel above that number there
  -- is a result, and every larger fuel gives the same one.
  pub run-ends :
      (n : ℕ) (m : Members σ)
      → step_ceiling r.options.limits.max_steps ≤ n
      → (res : Reached) × ((fuel : ℕ) → suc n ≤ fuel → run r fuel m ≡ some res)
  unfolding run
  run-ends n m h =
      let (res, e) = looped-ends n (prepare r m) h in
      concluded-ends (suc n) res (λ fuel. run r fuel m) (λ fuel h. ap (concluded r) (e fuel h))
