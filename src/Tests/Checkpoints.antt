-- ===== src/Tests/Checkpoints.antt =====
-- One thread with a stored checkpoint.
use langgraph_cpp.Prelude.{
  ℕ, String, Result, err, ◌≡◌, refl, stable_sort, place, keep, drop, not, Bool, true, false, Option,
  none, some, List, [], ◌∷◌, ok, text_key, ◌==◌, ◌&&◌, if◌then◌else◌,
}
use langgraph_cpp.Prelude.Map.{lookup, erase}
use langgraph_cpp.Checkpoint.Types.{Checkpoint, query_at, CheckpointMaintenanceResult}
use langgraph_cpp.Checkpoint.Saver.{
  InMemorySaver, new_saver, history, put, find_checkpoint, get_tuple, tuple_of, same_id,
  delete_thread,
}
use langgraph_cpp.Checkpoint.Saver.Lookup.{
  IsValid, new_saver-IsValid, put-IsValid, find_checkpoint-put, get_tuple-put,
}
use langgraph_cpp.Checkpoint.Saver.Refines.{
  put_call, delete_call, perform_all, perform_all_on, contents, perform_all-refines,
}
use langgraph_cpp.Checkpoint.Copy.{
  CheckpointCopyThreadOptions, copied, copy_thread_with, after_call, validate_copy_options,
  copy_listed, copy_list_options, copy_each, store_copied, copied_writes,
  rewrite_checkpoint_for_copy,
}
use langgraph_cpp.Checkpoint.Listing.{
  validate_list_options, apply_list_options, list_each, cut_before, metadata_matches, listed,
}
use langgraph_cpp.Checkpoint.Copy.Same.{moved}
use langgraph_cpp.Checkpoint.Copy.Complete.{copy_thread_with-holds}
use mathlib.Core.List.{Memᴰ}
use langgraph_cpp.Checkpoint.Copy.Frame.{memory_copies, copy_thread_with-keeps}
use langgraph_cpp.Checkpoint.Saver.Maintain.{
  CheckpointPruneOptions, in_namespace, prune, list, no_change,
}
use langgraph_cpp.Checkpoint.Saver.Maintain.Pruned.{prune-latest}
use langgraph_cpp.Tests.Examples.{tree_json, t_null, t_object, no_members}

abbrev pub checkpoint : Checkpoint
checkpoint = record {
  thread_id = "t";
  checkpoint_id = "r-step-1";
  checkpoint_namespace = "";
  parent_checkpoint_id = none;
  step = 1;
  state = t_object no_members;
  next_nodes = [];
  next_tasks = [];
  writes = [];
  pending_writes = [];
  channel_versions = t_null;
  versions_seen = t_null;
  updated_channels = [];
  metadata = t_null;
  created_at = 7;
}

abbrev pub saver : InMemorySaver
saver = record { checkpoints = ("t", checkpoint ∷ []) ∷ []; writes = [] }

pub stored : put checkpoint new_saver ≡ ok saver
unfolding put lookup langgraph_cpp.Prelude.Map.insert langgraph_cpp.Prelude.place
stored = refl

put-IsValid_example : IsValid saver
put-IsValid_example = put-IsValid checkpoint new_saver saver new_saver-IsValid stored

find_checkpoint-put_example : find_checkpoint (query_at "t" "r-step-1" "") (history saver "t") ≡ (
    if checkpoint.thread_id == "t" && same_id "" "r-step-1" checkpoint
    then some checkpoint
    else find_checkpoint (query_at "t" "r-step-1" "") (history new_saver "t"))
find_checkpoint-put_example =
    find_checkpoint-put checkpoint new_saver saver "t" "" "r-step-1" new_saver-IsValid stored

get_tuple-put_example :
    get_tuple (query_at "t" "r-step-1" "") saver
    ≡ ok (some (record { checkpoint = checkpoint; pending_writes = [] }))
unfolding lookup
get_tuple-put_example = get_tuple-put checkpoint new_saver saver new_saver-IsValid stored

perform_all-refines_example :
    IsValid (perform_all (put_call checkpoint ∷ delete_call "u" ∷ []) new_saver)
    × (contents (perform_all (put_call checkpoint ∷ delete_call "u" ∷ []) new_saver)
        ≡ perform_all_on (put_call checkpoint ∷ delete_call "u" ∷ []) (contents new_saver))
perform_all-refines_example = perform_all-refines (put_call checkpoint ∷ delete_call "u" ∷ [])

abbrev keep_none : CheckpointPruneOptions
keep_none = record { checkpoint_namespace = ""; keep_latest = 0 }

prune-latest_example :
    (keep (in_namespace "") (history (prune "t" keep_none saver).0 "t") ≡ [])
    × (keep (λ c. not (in_namespace "" c)) (history (prune "t" keep_none saver).0 "t") ≡ [])
    × (history (prune "t" keep_none saver).0 "u" ≡ [])
unfolding lookup keep drop
prune-latest_example =
    prune-latest "t" "u" keep_none saver (checkpoint ∷ [])
      (put-IsValid checkpoint new_saver saver new_saver-IsValid stored) refl refl

abbrev to_u : CheckpointCopyThreadOptions
to_u = record {
  source_thread_id = "t";
  target_thread_id = "u";
  checkpoint_namespace = none;
  target_checkpoint_namespace = none;
  overwrite_target = true;
}

copy_thread_with-keeps_example :
    history (copy_thread_with (memory_copies (λ x y. true)) to_u saver).0 "t" ≡ history saver "t"
copy_thread_with-keeps_example = copy_thread_with-keeps "t" (λ x y. true) to_u refl saver

abbrev copy_result :
    InMemorySaver × Result CheckpointMaintenanceResult → InMemorySaver × CheckpointMaintenanceResult
copy_result (s, ok res) = (s, res)
copy_result (s, err e) = (s, no_change)

abbrev copies : InMemorySaver × CheckpointMaintenanceResult
copies = copy_result (copy_thread_with (memory_copies (λ x y. true)) to_u saver)

copy_thread_with-holds_example : Memᴰ (moved to_u (tuple_of [] checkpoint)) (history copies.0 "u")
unfolding copy_thread_with after_call validate_copy_options copy_listed copy_list_options copy_each
    store_copied copied copied_writes rewrite_checkpoint_for_copy list validate_list_options
    apply_list_options list_each cut_before metadata_matches listed delete_thread put lookup erase
    stable_sort place keep tuple_of
copy_thread_with-holds_example =
    copy_thread_with-holds (λ x y. true) to_u saver copies.0 copies.1 (tuple_of [] checkpoint ∷ [])
      (tuple_of [] checkpoint) refl refl (Memᴰ.head refl)
