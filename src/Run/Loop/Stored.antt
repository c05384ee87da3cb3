-- ===== src/Run/Loop/Stored.antt =====
-- What a run that returns a result has stored.
use langgraph_cpp.Prelude.{
  ℕ, zero, suc, true, false, Option, none, some, List, [], ◌∷◌, Result, ok, err, Status, ◌≡◌, refl,
  subst, Bool-cases, inl, inr, ◌⊎◌,
}
use langgraph_cpp.Json.{JsonLib, Json}
use langgraph_cpp.State.{Services, State}
use langgraph_cpp.Graph.Task.{is_terminal_next_tasks}
use langgraph_cpp.Graph.Types.{Command}
use langgraph_cpp.Run.Budget.{ResourceUsage, no_usage}
use langgraph_cpp.Run.Interrupts.{InterruptMetadata}
use langgraph_cpp.Run.Flow.{Flow, Act, proceeds, stops, leave}
use langgraph_cpp.Run.Flow.Ensures.{
  Holds, Ensures, Keeps, Ensures-leave, Keeps-pure, Keeps-read, Keeps-attempt, Keeps-bind,
  Keeps-modify, Keeps-when,
}
use langgraph_cpp.Run.Session.{GraphRun, Members, RunResult}
use langgraph_cpp.Run.Session.Stored.{
  SaverLaws, HasState, Stored, Returned, return_result-Stored, fail_run-Returned,
  put_checkpoint-Returned,
}
use langgraph_cpp.Run.Step.{super_step}
use langgraph_cpp.Run.Step.Stored.{super_step-Stored}
use langgraph_cpp.Run.Loop as Run
use langgraph_cpp.Run.Loop.{
  run_loop, looped, go_on, concluded, conclude, finish_late, prepare, put_initial, start_new,
  route_start, apply_command, apply_resume, set_resume_values, match_interrupts, single_match,
  change_state, fail_now,
}

module _ ⦃J : JsonLib⦄ ⦃S : Services⦄ {σ : Type 0} (r : GraphRun σ)
    (laws : SaverLaws r.around.saver) (has : r.options.has_checkpointer ≡ true) where
  abbrev Reached : Type 0
  Reached = Members σ × Flow (Result RunResult) (Unit {0})

  abbrev OnEnd : Option Reached → Type 0
  OnEnd none = Unit
  OnEnd (some p) = Holds (λ _. Stored r laws has) (Returned r laws has) p

  finish_late-Stored :
      Ensures (Stored r laws has) (λ _. Stored r laws has) (Returned r laws has) (finish_late r)
  unfolding finish_late
  finish_late-Stored = Keeps-bind _ _ (Keeps-modify _ (λ m h. h)) λ u.
      Keeps-bind _ _ (Keeps-read _) λ m.
        Keeps-bind _ _ (Keeps-attempt _ _ (λ e. fail_run-Returned r laws has e _ _ _ _))
          λ u. Keeps-attempt _ _ (λ e. fail_run-Returned r laws has e _ _ _ _)

  conclude-Stored :
      Ensures (Stored r laws has) (λ _. Stored r laws has) (Returned r laws has) (conclude r)
  unfolding conclude
  conclude-Stored =
      Keeps-bind _ _ (Keeps-read _)
        λ m. Keeps-bind _ _ (Keeps-when _ _ finish_late-Stored) λ u. return_result-Stored r laws has

  go_on-OnEnd :
      (p : Members σ × Flow (Result RunResult) ResourceUsage)
      (next : ResourceUsage → Members σ → Option Reached)
      → Holds
          (λ _ m. is_terminal_next_tasks m.next_tasks ≡ true → Stored r laws has m)
          (Returned r laws has)
          p
      → ((usage : ResourceUsage) (m : Members σ)
          → (is_terminal_next_tasks m.next_tasks ≡ true → Stored r laws has m)
          → OnEnd (next usage m))
      → OnEnd (go_on r p next)
  go_on-OnEnd (m, proceeds usage) next h k = k usage m h
  go_on-OnEnd (m, stops res) next h k = h

  run_loop-OnEnd :
      (fuel : ℕ) (usage : ResourceUsage) (m : Members σ)
      → (is_terminal_next_tasks m.next_tasks ≡ true → Stored r laws has m)
      → OnEnd (run_loop r fuel usage m)
  unfolding run_loop
  run_loop-OnEnd zero usage m h = elim (Bool-cases (is_terminal_next_tasks m.next_tasks)) [
    | inl over ↦ rw (over, run_loop) (h over)
    | inr live ↦ rw (live, run_loop) tt
  ]
  run_loop-OnEnd (suc fuel) usage m h = elim (Bool-cases (is_terminal_next_tasks m.next_tasks)) [
    | inl over ↦ rw (over, run_loop) (h over)
    | inr live ↦
        rw (live, run_loop)
          (go_on-OnEnd (super_step r usage m) (run_loop r fuel)
            ((super_step-Stored r laws has usage).at m tt) (run_loop-OnEnd fuel))
  ]

  concluded-OnEnd : (o : Option Reached) → OnEnd o → OnEnd (concluded r o)
  concluded-OnEnd none h = tt
  concluded-OnEnd (some (m, proceeds u)) h = conclude-Stored.at m h
  concluded-OnEnd (some (m, stops res)) h = h

  run_loop-Stored :
      (fuel : ℕ) (usage : ResourceUsage) (m m' : Members σ) (v : RunResult)
      → is_terminal_next_tasks m.next_tasks ≡ false
      → concluded r (run_loop r fuel usage m) ≡ some (m', stops (ok v))
      → HasState r laws has m' v.state
  unfolding Returned
  run_loop-Stored fuel usage m m' v live e =
      subst OnEnd e
        (concluded-OnEnd (run_loop r fuel usage m)
          (run_loop-OnEnd fuel usage m (λ over. absurd cc)))
        v refl

  -- A failure before the first super-step is stored as well.
  abbrev Sound : {A : Type 0} → Act (Members σ) (Result RunResult) A → Type 0
  Sound m = Keeps (λ _. Unit {0}) (Returned r laws has) m

  leave-Sound : {A : Type 0} (e : Status) → Sound (leave {A = A} (err e))
  unfolding Returned
  leave-Sound e = Ensures-leave _ (λ m h v k. cc)

  fail_now-Sound : {A : Type 0} (e : Status) → Sound (fail_now r {A = A} e)
  unfolding fail_now
  fail_now-Sound e = Keeps-bind _ _ (Keeps-read _) λ m. fail_run-Returned r laws has e _ _ _ _

  change_state-Sound : (f : State → Result State) → Sound (change_state r f)
  unfolding change_state
  change_state-Sound f =
      Keeps-bind _ _ (Keeps-read _)
        λ m. Keeps-bind _ _ (Keeps-attempt _ _ fail_now-Sound) λ state. Keeps-modify _ (λ m h. h)

  single_match-Sound : (i : InterruptMetadata) (is : List ℕ) → Sound (single_match r i is)
  unfolding single_match
  single_match-Sound i [] =
      Keeps-bind _ _ (Keeps-read _) λ m. fail_run-Returned r laws has _ _ _ _ _
  single_match-Sound i (n ∷ []) = Keeps-pure n
  single_match-Sound i (n ∷ k ∷ ks) =
      Keeps-bind _ _ (Keeps-read _) λ m. fail_run-Returned r laws has _ _ _ _ _

  match_interrupts-Sound :
      (value : Json) (count : ℕ) (is : List InterruptMetadata)
      → Sound (match_interrupts r value count is)
  unfolding match_interrupts
  match_interrupts-Sound value count [] = Keeps-pure tt
  match_interrupts-Sound value count (i ∷ is) = Keeps-bind _ _ (Keeps-read _) λ m.
      Keeps-bind _ _ (single_match-Sound i _) λ index.
        Keeps-bind _ _ (Keeps-attempt _ _ (λ e. fail_run-Returned r laws has e _ _ _ _)) λ answer.
          Keeps-bind _ _ (Keeps-modify _ (λ m h. h)) λ u. match_interrupts-Sound value count is

  set_resume_values-Sound :
      (value : Json) (is : List InterruptMetadata) → Sound (set_resume_values r value is)
  unfolding set_resume_values
  set_resume_values-Sound value [] = Keeps-bind _ _ (Keeps-read _) λ m.
      Keeps-bind _ _ (Keeps-when _ _ (fail_run-Returned r laws has _ _ _ _ _))
        λ u. Keeps-modify _ (λ m h. h)
  set_resume_values-Sound value (i ∷ is) = match_interrupts-Sound value _ (i ∷ is)

  apply_resume-Sound :
      (command : Command) (value : Option Json) → Sound (apply_resume r command value)
  unfolding apply_resume
  apply_resume-Sound command none = fail_now-Sound _
  apply_resume-Sound command (some value) = Keeps-bind _ _ (Keeps-read _) λ m.
      Keeps-bind _ _ (Keeps-attempt _ _ fail_now-Sound) λ interrupted.
        Keeps-bind _ _ (set_resume_values-Sound value interrupted)
          λ u. Keeps-bind _ _ (change_state-Sound _) λ u. change_state-Sound _

  apply_command-Sound : (command : Option Command) → Sound (apply_command r command)
  unfolding apply_command
  apply_command-Sound none = Keeps-pure tt
  apply_command-Sound (some command) = apply_resume-Sound command command.resume

  start_new-Sound : Sound (start_new r)
  unfolding start_new route_start
  start_new-Sound = Keeps-bind _ _ (Keeps-read _) λ m.
      Keeps-bind _ _ (Keeps-attempt _ _ leave-Sound) λ u. Keeps-when _ _ (
        Keeps-bind _ _ (Keeps-read _)
          λ m. Keeps-bind _ _ (Keeps-attempt _ _ leave-Sound) λ routed. Keeps-modify _ (λ m h. h))

  put_initial-Sound : Sound (put_initial r)
  unfolding put_initial
  put_initial-Sound =
      Keeps-bind _ _ (Keeps-read _)
        λ m. put_checkpoint-Returned r laws has m.step m.next_tasks [] [] "initial" false true

  prepare-Sound : Sound (prepare r)
  unfolding prepare
  prepare-Sound = Keeps-bind _ _ (Keeps-modify _ (λ m h. h)) λ u.
      Keeps-bind _ _ (Keeps-when _ _ start_new-Sound) λ u.
        Keeps-bind _ _ (Keeps-attempt _ _ fail_now-Sound) λ u.
          Keeps-bind _ _ (Keeps-when _ _ put_initial-Sound) λ u.
            Keeps-bind _ _ (Keeps-when _ _ (change_state-Sound _)) λ u.
              Keeps-bind _ _ (apply_command-Sound _)
                λ u. Keeps-bind _ _ (Keeps-read _) λ m. Keeps-attempt _ _ fail_now-Sound

  -- The run was prepared and had nothing to do.
  abbrev pub IsIdle : Members σ → Type 0
  IsIdle m =
      (m1 : Members σ) × (prepare r m ≡ (m1, proceeds tt))
      × (is_terminal_next_tasks m1.next_tasks ≡ true)

  -- When a run that has a checkpointer returns a result, complete, paused or failed, before its first
  -- super-step or after it, the checkpointer holds a checkpoint with the state of that result,
  -- whatever the durability; it is the one that the next checkpoint would name as its parent. The
  -- one exception is a run that was prepared and had nothing to do.
  pub run-Stored :
      (fuel : ℕ) (m m' : Members σ) (v : RunResult)
      → Run.run r fuel m ≡ some (m', stops (ok v))
      → HasState r laws has m' v.state ⊎ IsIdle m
  unfolding Run.run Returned
  run-Stored fuel m m' v e = by_start (prepare r m) refl (prepare-Sound.at m tt) e
    where
      by_start :
          (p : Reached)
          → prepare r m ≡ p
          → Holds (λ _ _. Unit {0}) (Returned r laws has) p
          → concluded r (looped r fuel p) ≡ some (m', stops (ok v))
          → HasState r laws has m' v.state ⊎ IsIdle m
      by_start (m1, proceeds u) at h e = elim (Bool-cases (is_terminal_next_tasks m1.next_tasks)) [
        | inl over ↦ inr (m1, at, over)
        | inr live ↦ inl (run_loop-Stored fuel no_usage m1 m' v live e)
      ]
      by_start (m1, stops res) at h e = inl (subst OnEnd e h v refl)
