-- ===== src/Run/Compiled/Update/Read.antt =====
-- `updateState` followed by `getState`, with the saver in memory.
use langgraph_cpp.Prelude.{
  String, ◌≡◌, refl, sym, ap, ◌∙◌, subst, Bool, true, none, Result, ok, err, text_key, ok-injective,
}
use langgraph_cpp.Prelude.Map.{lookup}
use langgraph_cpp.Json.{JsonLib, Json}
use langgraph_cpp.State.{Services, StateUpdate}
use langgraph_cpp.Graph.Types.{StateGraph}
use langgraph_cpp.Checkpoint.Types.{checkpoint_write_storage_key}
use langgraph_cpp.Checkpoint.Saver
use langgraph_cpp.Checkpoint.Saver.{InMemorySaver, tuple_of, kept_or}
use langgraph_cpp.Checkpoint.Saver.Lookup.{IsValid, put-named, get_tuple-put}
use langgraph_cpp.Checkpoint.Saver.Maintain.{list}
use langgraph_cpp.Run.Session.{Surroundings}
use langgraph_cpp.Run.Session.Memory.{memory_saver}
use langgraph_cpp.Run.Compiled.{
  StateSnapshot, snapshot_from_checkpoint, CheckpointReader, CallOptions, get_state_at,
  require_run_checkpointer,
}
use langgraph_cpp.Run.Compiled.Update.{
  StateUpdateOptions, UpdatePlan, planned_checkpoint, update_plan, update_state, carried_out,
  stored,
}

module _ ⦃J : JsonLib⦄ where
  abbrev pub memory_reader : (Json → Json → Bool) → CheckpointReader InMemorySaver
  memory_reader equal = record { get_tuple = Saver.get_tuple; list = list equal }

module _ ⦃J : JsonLib⦄ ⦃S : Services⦄ (g : StateGraph) (around : Surroundings InMemorySaver)
    (equal : Json → Json → Bool) (thread : String) (update : StateUpdate) (o : CallOptions)
    (u : StateUpdateOptions) where
  -- No writes wait for a checkpoint of this name.
  abbrev IsFree : InMemorySaver → String → StateSnapshot → Type 0
  IsFree s id snap =
      lookup (checkpoint_write_storage_key thread snap.checkpoint_namespace id) s.writes ≡ none

  read_planned :
      (id : String) (plan : UpdatePlan) (s t : InMemorySaver) (reading : CallOptions)
      → IsValid s
      → Saver.put (planned_checkpoint thread id (around.clock id) u plan) s ≡ ok t
      → IsFree s id
          (snapshot_from_checkpoint (planned_checkpoint thread id (around.clock id) u plan))
      → reading.options.has_checkpointer ≡ true
      → reading.checkpoint_namespace ≡ plan.checkpoint_namespace
      → get_state_at g around (memory_reader equal) thread id reading t
        ≡ ok (snapshot_from_checkpoint (planned_checkpoint thread id (around.clock id) u plan))
  unfolding get_state_at require_run_checkpointer planned_checkpoint snapshot_from_checkpoint
      tuple_of
  read_planned id plan s t reading v e free has same =
      let c = planned_checkpoint thread id (around.clock id) u plan in
      let (a, b) = put-named c s t e in rw (a, b, has, same, get_tuple-put c s t v e, free) refl

  read_stored :
      (id : String) (plan : UpdatePlan) (s t : InMemorySaver) (snap : StateSnapshot)
      (reading : CallOptions) (res : Result InMemorySaver)
      → IsValid s
      → Saver.put (planned_checkpoint thread id (around.clock id) u plan) s ≡ res
      → stored g around
          (memory_reader equal)
          thread
          update
          o
          u
          (planned_checkpoint thread id (around.clock id) u plan)
          (kept_or s res)
        ≡ (t, ok snap)
      → IsFree s id snap
      → reading.options.has_checkpointer ≡ true
      → reading.checkpoint_namespace ≡ snap.checkpoint_namespace
      → get_state_at g around (memory_reader equal) thread id reading t ≡ ok snap
  unfolding snapshot_from_checkpoint planned_checkpoint
  read_stored id plan s t snap reading (ok t') v e h free has same =
      let c = planned_checkpoint thread id (around.clock id) u plan in
      let now : t' ≡ t = ap (λ p. p.0) h in
      let seen : snapshot_from_checkpoint c ≡ snap = ok-injective (ap (λ p. p.1) h) in
      subst (λ x. get_state_at g around (memory_reader equal) thread id reading x ≡ ok snap) now
        (read_planned id plan s t' reading v e (subst (λ x. IsFree s id x) (sym seen) free) has
            (same ∙ sym (ap (λ x. x.checkpoint_namespace) seen))
          ∙ ap ok seen)
  read_stored id plan s t snap reading (err x) v e h free has same = cc

  -- After an update of a thread in a valid saver in memory, where no writes wait for a checkpoint
  -- of the new name, reading the thread at the new id, in the namespace of the update, gives the
  -- very snapshot that the update returned.
  pub get_state_at-update_state :
      (run_id id : String) (s t : InMemorySaver) (snap : StateSnapshot) (reading : CallOptions)
      → around.saver ≡ memory_saver
      → IsValid s
      → update_state g around (memory_reader equal) thread update o u run_id id s ≡ (t, ok snap)
      → IsFree s id snap
      → reading.options.has_checkpointer ≡ true
      → reading.checkpoint_namespace ≡ snap.checkpoint_namespace
      → get_state_at g around (memory_reader equal) thread id reading t ≡ ok snap
  unfolding update_state
  get_state_at-update_state run_id id s t snap reading in_memory v h free has same =
      carried (update_plan g around (memory_reader equal) thread update o u run_id s) h
    where
      carried :
          (res : Result UpdatePlan)
          → carried_out g around (memory_reader equal) thread update o u id s res ≡ (t, ok snap)
          → get_state_at g around (memory_reader equal) thread id reading t ≡ ok snap
      carried (err e) k = cc
      carried (ok plan) k =
          let c = planned_checkpoint thread id (around.clock id) u plan in
          read_stored id plan s t snap reading (Saver.put c s) v refl
            (ap (λ w. stored g around (memory_reader equal) thread update o u c (w.put c s))
                (sym in_memory)
              ∙ k)
            free has same
