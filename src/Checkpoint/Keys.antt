-- ===== src/Checkpoint/Keys.antt =====
-- The keys of src/langgraph/checkpoint/storage_saver.cpp, under which a storage holds checkpoints,
-- their writes and the ids of the latest checkpoints.
pub mod Apart
use Prim.Native.String.{len, ◌++◌}
use langgraph_cpp.Prelude.{
  ℕ, zero, suc, ◌-◌, String, Option, none, some, Result, ok, fail_if, ◌>>=◌, ◌>>◌, invalid_argument,
  ◌==◌, text_key, if◌then◌else◌, leb, to_string,
}
use langgraph_cpp.Json.{JsonLib}
use langgraph_cpp.Storage.{StorageKey}
use langgraph_cpp.Checkpoint.Hex.{hex_encode}
use langgraph_cpp.Checkpoint.Types.{CheckpointWrite, CheckpointWriteSet}

-- The part of a key that tells the namespace; the root's is empty.
abbrev pub namespace_part : String → String
namespace_part ns = if ns == "" then "" else "ns/" ++ (hex_encode ns ++ "/")

unfoldable pub key_prefix_for : String → String → Result String
key_prefix_for thread ns = do
  fail_if (thread == "") invalid_argument "checkpoint thread_id cannot be empty"
  ok (hex_encode thread ++ ("/" ++ namespace_part ns))

unfoldable pub key_for : String → String → String → String → Result StorageKey
key_for scope thread ns id = do
  fail_if (thread == "") invalid_argument "checkpoint thread_id cannot be empty"
  fail_if (id == "") invalid_argument "checkpoint checkpoint_id cannot be empty"
  prefix ← key_prefix_for thread ns
  ok (record { scope = scope; key = prefix ++ hex_encode id })

unfoldable pub latest_pointer_key_for : String → String → String → Result StorageKey
latest_pointer_key_for scope thread ns = do
  fail_if (thread == "") invalid_argument "checkpoint thread_id cannot be empty"
  ok (record {
    scope = scope;
    key = ("latest/" ++ hex_encode thread) ++ (if ns == "" then "" else "/ns/" ++ hex_encode ns);
  })

unfoldable pub write_key_prefix_for : String → String → String → Result String
write_key_prefix_for thread ns id = do
  fail_if (thread == "") invalid_argument "checkpoint writes thread_id cannot be empty"
  fail_if (id == "") invalid_argument "checkpoint writes checkpoint_id cannot be empty"
  ok (
      "writes/"
      ++ (hex_encode thread
          ++ ("/" ++ (namespace_part ns ++ ("checkpoint/" ++ (hex_encode id ++ "/"))))))

zeros : ℕ → String
zeros zero = ""
zeros (suc n) = "0" ++ zeros n

-- Numbers of twenty digits are in order as texts.
unfoldable pub padded_index : ℕ → String
unfolding zeros
padded_index n =
    let digits = to_string n in
    if leb 20 (len digits) then digits else zeros (20 - len digits) ++ digits

abbrev or_at : Option ℕ → ℕ → ℕ
or_at none i = i
or_at (some n) i = n

module _ ⦃J : JsonLib⦄ where
  unfoldable pub write_key_for :
      String → CheckpointWriteSet → CheckpointWrite → ℕ → Result StorageKey
  write_key_for scope set w i = do
    prefix ← write_key_prefix_for set.thread_id set.checkpoint_namespace set.checkpoint_id
    ok (record {
      scope = scope;
      key =
          prefix
          ++ (hex_encode w.task_id
              ++ ("/" ++ (hex_encode w.task_path ++ ("/" ++ padded_index (or_at w.order i)))));
    })
