-- ===== src/Checkpoint/Copy.antt =====
-- `copyThreadWith` of src/langgraph/checkpoint/checkpointer.cpp: the calls that copy the checkpoints
-- of a thread, over any saver.
pub mod Frame
pub mod Same
pub mod Complete
use langgraph_cpp.Prelude.{
  ℕ, ◌+◌, String, Bool, Option, none, some, List, [], ◌∷◌, Result, ok, err, fail_if, ◌>>◌, not,
  ◌&&◌, invalid_argument, ◌==◌, text_key, if◌then◌else◌, is_empty, has_value, map,
}
use langgraph_cpp.Json.{JsonLib, json_object}
use langgraph_cpp.Graph.Task.{CheckpointTask}
use langgraph_cpp.Checkpoint.Types.{
  Checkpoint, CheckpointWrite, CheckpointTuple, CheckpointWriteSet, CheckpointMaintenanceResult,
}
use langgraph_cpp.Checkpoint.Listing.{CheckpointListOptions, oldest_first}

pub record CheckpointCopyThreadOptions : Type 0 where
  pub source_thread_id : String
  pub target_thread_id : String
  pub checkpoint_namespace : Option String
  pub target_checkpoint_namespace : Option String
  pub overwrite_target : Bool

unfoldable pub validate_copy_options : CheckpointCopyThreadOptions → Result (Unit {0})
validate_copy_options o = do
  fail_if (o.source_thread_id == "") invalid_argument
      "checkpoint copy source thread_id cannot be empty"
  fail_if (o.target_thread_id == "") invalid_argument
      "checkpoint copy target thread_id cannot be empty"
  fail_if (has_value o.target_checkpoint_namespace && not (has_value o.checkpoint_namespace))
      invalid_argument "checkpoint copy target namespace requires a single source namespace"

abbrev pub or_namespace : Option String → String → String
or_namespace none ns = ns
or_namespace (some target) ns = target

module _ ⦃J : JsonLib⦄ where
  unfoldable pub rewrite_task_namespace : Option String → CheckpointTask → CheckpointTask
  rewrite_task_namespace target t = record t {
    checkpoint_namespace = or_namespace target t.checkpoint_namespace;
  }

  unfoldable pub rewrite_write_namespace : Option String → CheckpointWrite → CheckpointWrite
  rewrite_write_namespace none w = w
  rewrite_write_namespace (some target) w = record w {
    checkpoint_namespace = target;
    next_tasks = map (rewrite_task_namespace (some target)) w.next_tasks;
  }

  unfoldable pub rewrite_checkpoint_for_copy : String → Option String → Checkpoint → Checkpoint
  rewrite_checkpoint_for_copy thread target c = record c {
    thread_id = thread;
    checkpoint_namespace = or_namespace target c.checkpoint_namespace;
    next_tasks = map (rewrite_task_namespace target) c.next_tasks;
    writes = map (rewrite_write_namespace target) c.writes;
    pending_writes = map (rewrite_write_namespace target) c.pending_writes;
  }

  -- The calls of `BaseCheckpointSaver` that copying makes.
  pub record CopySaver (σ : Type 0) : Type 0 where
    pub list : CheckpointListOptions → σ → Result (List CheckpointTuple)
    pub put : Checkpoint → σ → σ × Result (Unit {0})
    pub put_writes : CheckpointWriteSet → σ → σ × Result (Unit {0})
    pub delete_thread : String → σ → σ × Result (Unit {0})

  abbrev pub if_empty : List CheckpointWrite → List CheckpointWrite → List CheckpointWrite
  if_empty [] other = other
  if_empty (w ∷ ws) other = w ∷ ws

  -- The checkpoint and the pending writes that are stored for a listed checkpoint.
  unfoldable pub copied : CheckpointCopyThreadOptions → CheckpointTuple → CheckpointTuple
  copied o t =
      let c =
        rewrite_checkpoint_for_copy o.target_thread_id o.target_checkpoint_namespace t.checkpoint in
      record {
        checkpoint = record c { pending_writes = if_empty c.pending_writes t.pending_writes };
        pending_writes = if_empty t.pending_writes c.pending_writes;
      }

  unfoldable pub copied_writes : CheckpointCopyThreadOptions → CheckpointTuple → CheckpointWriteSet
  copied_writes o t = record {
    thread_id = o.target_thread_id;
    checkpoint_namespace = t.checkpoint.checkpoint_namespace;
    checkpoint_id = t.checkpoint.checkpoint_id;
    task_id = t.checkpoint.checkpoint_id;
    task_path = "copy";
    writes = map (rewrite_write_namespace o.target_checkpoint_namespace) t.pending_writes;
  }

  unfoldable pub copy_list_options : CheckpointCopyThreadOptions → CheckpointListOptions
  copy_list_options o = record {
    thread_id = o.source_thread_id;
    checkpoint_namespace = o.checkpoint_namespace;
    checkpoint_id = none;
    before_checkpoint_id = none;
    limit = none;
    metadata_filter = json_object [];
    order = oldest_first;
  }

  module _ {σ : Type 0} where
    -- A call, and what follows when it succeeds.
    unfoldable pub after_call :
        {A : Type 0} → σ × Result (Unit {0}) → (σ → σ × Result A) → σ × Result A
    after_call (s, ok u) f = f s
    after_call (s, err e) f = (s, err e)

    module _ (saver : CopySaver σ) (o : CheckpointCopyThreadOptions) where
      unfoldable pub store_copied : CheckpointTuple → σ → σ × Result (Unit {0})
      store_copied t s = after_call (saver.put t.checkpoint s) (λ s.
          if is_empty t.pending_writes then (s, ok tt) else saver.put_writes (copied_writes o t) s)

      unfoldable pub copy_each :
          List CheckpointTuple
          → CheckpointMaintenanceResult
          → σ
          → σ × Result CheckpointMaintenanceResult
      copy_each [] res s = (s, ok res)
      copy_each (t ∷ ts) res s = after_call (store_copied (copied o t) s) (λ s.
          copy_each ts
            (record res {
              remaining = res.remaining + 1;
              latest_checkpoint_id = t.checkpoint.checkpoint_id;
            })
            s)

      unfoldable pub copy_listed :
          Result (List CheckpointTuple) → σ → σ × Result CheckpointMaintenanceResult
      copy_listed (ok ts) s =
          copy_each ts (record { removed = 0; remaining = 0; latest_checkpoint_id = "" }) s
      copy_listed (err e) s = (s, err e)

      abbrev checked : Result (Unit {0}) → σ → σ × Result (Unit {0})
      checked res s = (s, res)

      unfoldable pub copy_thread_with : σ → σ × Result CheckpointMaintenanceResult
      copy_thread_with s = after_call (checked (validate_copy_options o) s) (λ s.
          after_call
            (if o.overwrite_target then saver.delete_thread o.target_thread_id s else (s, ok tt))
            (λ s. copy_listed (saver.list (copy_list_options o) s) s))
