-- ===== src/Checkpoint/Saver/Maintain.antt =====
-- `list`, `prune` and `deleteForRuns` of src/langgraph/checkpoint/in_memory_saver.cpp.
pub mod Pruned
use langgraph_cpp.Prelude.{
  ℕ, zero, suc, ◌+◌, ◌-◌, String, Bool, true, false, Option, none, some, List, [], ◌∷◌, Result, ok,
  fail_if, ◌>>=◌, ◌>>◌, invalid_argument, ◌==◌, text_key, nat_key, if◌then◌else◌, ltb, not, ◌&&◌,
  ◌||◌, length, keep, any, is_empty, add_to_set, member_of, take, labelled, map,
}
use langgraph_cpp.Prelude.Map.{Map, lookup, insert, erase}
use langgraph_cpp.Json.{JsonLib, Json}
use langgraph_cpp.Checkpoint.Types.{
  Checkpoint, CheckpointWrite, CheckpointTuple, CheckpointMaintenanceResult,
  checkpoint_write_storage_key,
}
use langgraph_cpp.Checkpoint.Listing.{
  CheckpointListOptions, validate_list_options, apply_list_options,
}
use langgraph_cpp.Checkpoint.Saver.{InMemorySaver}
use text.Mathlib.Text.{starts_with}

pub record CheckpointPruneOptions : Type 0 where
  pub checkpoint_namespace : String
  pub keep_latest : ℕ

pub record CheckpointDeleteForRunsOptions : Type 0 where
  pub thread_id : String
  pub checkpoint_namespace : Option String
  pub run_ids : List String

-- The id is the run's, or starts with it and a dash.
unfoldable pub checkpoint_id_matches_run : String → List String → Bool
checkpoint_id_matches_run id [] = false
checkpoint_id_matches_run id (run ∷ runs) =
    let rest = checkpoint_id_matches_run id runs in
    (id == run || starts_with id (labelled run "-")) || rest

unfoldable pub validate_delete_for_runs_options : CheckpointDeleteForRunsOptions → Result (Unit {0})
validate_delete_for_runs_options o = do
  fail_if (o.thread_id == "") invalid_argument "checkpoint erase runs thread_id cannot be empty"
  fail_if (is_empty o.run_ids) invalid_argument "checkpoint erase runs requires at least one run id"
  fail_if (any (λ id. id == "") o.run_ids) invalid_argument
      "checkpoint erase run id cannot be empty"

module _ ⦃J : JsonLib⦄ where
  abbrev pub no_change : CheckpointMaintenanceResult
  no_change = record { removed = 0; remaining = 0; latest_checkpoint_id = "" }

  abbrev pub in_namespace : String → Checkpoint → Bool
  in_namespace ns c = c.checkpoint_namespace == ns

  abbrev pub is_wanted : Option String → Checkpoint → Bool
  is_wanted none c = true
  is_wanted (some ns) c = in_namespace ns c

  abbrev with_history : InMemorySaver → String → List Checkpoint → InMemorySaver
  with_history s thread cs = record s { checkpoints = insert thread cs s.checkpoints }

  module _ (equal : Json → Json → Bool) where
    unfoldable pub list : CheckpointListOptions → InMemorySaver → Result (List CheckpointTuple)
    list o s = do
      validate_list_options o
      elim (lookup o.thread_id s.checkpoints) [
        | none ↦ ok []
        | some cs ↦
            ok (apply_list_options equal (keep (is_wanted o.checkpoint_namespace) cs) s.writes o)
      ]

  -- The ids of checkpoints, as a set.
  unfoldable pub id_set : List Checkpoint → List String
  id_set [] = []
  id_set (c ∷ cs) = add_to_set c.checkpoint_id (id_set cs)

  -- The oldest checkpoints of the namespace, all but the last `keep_latest`.
  unfoldable pub to_remove : String → ℕ → List Checkpoint → List Checkpoint
  to_remove ns keep_latest cs =
      let own = keep (in_namespace ns) cs in take (length own - keep_latest) own

  abbrev is_removed : String → List String → Checkpoint → Bool
  is_removed ns ids c = in_namespace ns c && member_of c.checkpoint_id ids

  unfoldable pub erase_writes :
      String
      → String
      → List String
      → Map String (List CheckpointWrite)
      → Map String (List CheckpointWrite)
  erase_writes thread ns [] writes = writes
  erase_writes thread ns (id ∷ ids) writes =
      erase_writes thread ns ids (erase (checkpoint_write_storage_key thread ns id) writes)

  -- How many of the checkpoints are counted, and the id of the last of these.
  unfoldable pub count_remaining :
      (Checkpoint → Bool)
      → List Checkpoint
      → CheckpointMaintenanceResult
      → CheckpointMaintenanceResult
  count_remaining counted [] res = res
  count_remaining counted (c ∷ cs) res = count_remaining counted cs (
      if counted c
      then record res { remaining = res.remaining + 1; latest_checkpoint_id = c.checkpoint_id }
      else res)

  -- The history after pruning.
  unfoldable pub pruned : String → ℕ → List Checkpoint → List Checkpoint
  pruned ns keep_latest cs =
      let ids = id_set (to_remove ns keep_latest cs) in keep (λ c. not (is_removed ns ids c)) cs

  unfoldable pub prune :
      String → CheckpointPruneOptions → InMemorySaver → InMemorySaver × CheckpointMaintenanceResult
  prune thread o s = elim (lookup thread s.checkpoints) [
    | none ↦ (s, no_change)
    | some cs ↦
        let ns = o.checkpoint_namespace in
        let ids = id_set (to_remove ns o.keep_latest cs) in
        let left = pruned ns o.keep_latest cs in
        (
          record {
            checkpoints = insert thread left s.checkpoints;
            writes = erase_writes thread ns ids s.writes;
          },
          count_remaining (in_namespace ns) left (record no_change { removed = length ids }),
        )
  ]

  abbrev of_runs : CheckpointDeleteForRunsOptions → Checkpoint → Bool
  of_runs o c =
      is_wanted o.checkpoint_namespace c && checkpoint_id_matches_run c.checkpoint_id o.run_ids

  unfoldable pub erase_all_writes :
      String
      → List Checkpoint
      → Map String (List CheckpointWrite)
      → Map String (List CheckpointWrite)
  erase_all_writes thread [] writes = writes
  erase_all_writes thread (c ∷ cs) writes =
      erase_all_writes thread cs
        (erase (checkpoint_write_storage_key thread c.checkpoint_namespace c.checkpoint_id) writes)

  -- Where nothing was removed, the checkpoints of all namespaces are counted.
  abbrev is_affected : List Checkpoint → Checkpoint → Bool
  is_affected removed c =
      is_empty removed || any (λ d. d.checkpoint_namespace == c.checkpoint_namespace) removed

  unfoldable pub delete_for_runs :
      CheckpointDeleteForRunsOptions
      → InMemorySaver
      → Result (InMemorySaver × CheckpointMaintenanceResult)
  delete_for_runs o s = do
    validate_delete_for_runs_options o
    elim (lookup o.thread_id s.checkpoints) [
      | none ↦ ok (s, no_change)
      | some cs ↦
          let removed = keep (of_runs o) cs in
          let left = keep (λ c. not (of_runs o c)) cs in
          ok (
            record {
              checkpoints = insert o.thread_id left s.checkpoints;
              writes = erase_all_writes o.thread_id removed s.writes;
            },
            count_remaining (is_affected removed) left
                (record no_change { removed = length removed }),
          )
    ]
