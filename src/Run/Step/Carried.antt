-- ===== src/Run/Step/Carried.antt =====
-- What a failed super-step carries over to the next attempt.
use langgraph_cpp.Prelude.{ℕ, none, some, List, [], ◌∷◌, ok, ◌≡◌}
use langgraph_cpp.Json.{JsonLib}
use langgraph_cpp.State.{Services}
use langgraph_cpp.Graph.Types.{NodeOutput}
use langgraph_cpp.Checkpoint.Types.{Checkpoint, CheckpointWrite}
use langgraph_cpp.Run.Execute.{NodeExecution}
use langgraph_cpp.Run.Writes.{write_from_execution}
use langgraph_cpp.Run.Session.{GraphRun, node_completed}
use langgraph_cpp.Run.Session.Failed.{Failed}
use langgraph_cpp.Run.Checks.{answer}

module _ ⦃J : JsonLib⦄ ⦃S : Services⦄ {σ : Type 0} (r : GraphRun σ) (step : ℕ) where
  -- The writes of the executions that ended well: their events are taken, and they have writes.
  pub data Wrote : List NodeExecution → List CheckpointWrite → Type 0 where
    no_more : Wrote [] []
    failed_one :
        {e : NodeExecution} {es : List NodeExecution} {ws : List CheckpointWrite}
        → answer e ≡ none
        → Wrote es ws
        → Wrote (e ∷ es) ws
    ended_one :
        {e : NodeExecution} {es : List NodeExecution} {ws : List CheckpointWrite} (out : NodeOutput)
        (w : CheckpointWrite)
        → answer e ≡ some out
        → r.around.emit (node_completed step e.task out) ≡ ok tt
        → write_from_execution r.graph r.context e.task out ≡ ok w
        → Wrote es ws
        → Wrote (e ∷ es) (w ∷ ws)
