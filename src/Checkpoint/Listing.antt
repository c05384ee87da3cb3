-- ===== src/Checkpoint/Listing.antt =====
-- `CheckpointListOptions`, and `applyListOptions` of src/langgraph/checkpoint/checkpointer.cpp.
-- Whether two JSON values are equal is asked of the JSON library.
use langgraph_cpp.Prelude.{
  ℕ, String, Bool, true, false, Option, none, some, List, [], ◌∷◌, reverse, Result, fail_if, ◌>>◌,
  invalid_argument, ◌==◌, text_key, nat_key, if◌then◌else◌, ltb, not, ◌&&◌, is_empty, has_value,
  stable_sort, take,
}
use langgraph_cpp.Prelude.Map.{Map, lookup}
use langgraph_cpp.Json.{JsonLib, Json, Fields, as_object, fields}
use langgraph_cpp.Checkpoint.Types.{Checkpoint, CheckpointWrite, CheckpointTuple, key_of, is_blank}

pub data CheckpointListOrder : Type 0 where
  newest_first oldest_first : CheckpointListOrder

module _ ⦃J : JsonLib⦄ where
  pub record CheckpointListOptions : Type 0 where
    pub thread_id : String
    pub checkpoint_namespace : Option String
    pub checkpoint_id : Option String
    pub before_checkpoint_id : Option String
    pub limit : Option ℕ
    pub metadata_filter : Json
    pub order : CheckpointListOrder

  abbrev is_zero : Option ℕ → Bool
  is_zero none = false
  is_zero (some n) = n == 0

  unfoldable pub validate_list_options : CheckpointListOptions → Result (Unit {0})
  validate_list_options o = do
    fail_if (o.thread_id == "") invalid_argument "checkpoint list thread_id cannot be empty"
    fail_if (is_blank o.checkpoint_id) invalid_argument
        "checkpoint list checkpoint_id cannot be empty"
    fail_if (is_blank o.before_checkpoint_id) invalid_argument
        "checkpoint list before checkpoint_id cannot be empty"
    fail_if (is_zero o.limit) invalid_argument "checkpoint list limit must be greater than zero"
    fail_if (not (has_value (as_object o.metadata_filter))) invalid_argument
        "checkpoint list metadata filter must be an object"

  -- By step, then by the moment of creation, then by id.
  unfoldable pub is_older : Checkpoint → Checkpoint → Bool
  is_older a b =
      if not (a.step == b.step)
      then ltb a.step b.step
      else if not (a.created_at == b.created_at)
      then ltb a.created_at b.created_at
      else elim (text_key.cmp a.checkpoint_id b.checkpoint_id) [
        | Prim.Native.Nat.Ordering.lt ↦ true
        | _ ↦ false
      ]

  -- The checkpoints before the one with the id; none when it is not there.
  unfoldable pub before_id : String → List Checkpoint → Option (List Checkpoint)
  before_id id [] = none
  before_id id (c ∷ cs) =
      let rest = before_id id cs in
      if c.checkpoint_id == id
      then some []
      else elim rest [ none ↦ none | some found ↦ some (c ∷ found) ]

  abbrev or_none : Option (List Checkpoint) → List Checkpoint
  or_none none = []
  or_none (some cs) = cs

  unfoldable pub cut_before : Option String → List Checkpoint → List Checkpoint
  cut_before none cs = cs
  cut_before (some id) cs = or_none (before_id id cs)

  abbrev writes_or_none : Option (List CheckpointWrite) → List CheckpointWrite
  writes_or_none none = []
  writes_or_none (some ws) = ws

  -- The writes stored for the checkpoint, or its own.
  unfoldable pub listed : Map String (List CheckpointWrite) → Checkpoint → CheckpointTuple
  listed stored c =
      let found = writes_or_none (lookup (key_of c) stored) in
      let own = c.pending_writes in
      record {
        checkpoint = record c { pending_writes = if is_empty own then found else own };
        pending_writes = if is_empty found then own else found;
      }

  abbrev is_id : Option String → String → Bool
  is_id none id = true
  is_id (some wanted) id = id == wanted

  abbrev limited : Option ℕ → List CheckpointTuple → List CheckpointTuple
  limited none ts = ts
  limited (some n) ts = take n ts

  abbrev ordered : CheckpointListOrder → List CheckpointTuple → List CheckpointTuple
  ordered newest_first ts = reverse ts
  ordered oldest_first ts = ts

  module _ (equal : Json → Json → Bool) where
    -- Every field of the filter is in the metadata, with an equal value.
    unfoldable pub fields_match : Fields → Fields → Bool
    fields_match metadata [] = true
    fields_match metadata ((key, wanted) ∷ rest) =
        let more = fields_match metadata rest in
        elim (lookup key metadata) [ none ↦ false | some held ↦ equal held wanted && more ]

    unfoldable pub metadata_matches : Json → Json → Bool
    metadata_matches metadata filter =
        if is_empty (fields filter)
        then true
        else elim (as_object metadata) [ none ↦ false | some m ↦ fields_match m (fields filter) ]

    unfoldable pub list_each :
        CheckpointListOptions
        → Map String (List CheckpointWrite)
        → List Checkpoint
        → List CheckpointTuple
    list_each o stored [] = []
    list_each o stored (c ∷ cs) =
        let rest = list_each o stored cs in
        if is_id o.checkpoint_id c.checkpoint_id && metadata_matches c.metadata o.metadata_filter
        then listed stored c ∷ rest
        else rest

    unfoldable pub apply_list_options :
        List Checkpoint
        → Map String (List CheckpointWrite)
        → CheckpointListOptions
        → List CheckpointTuple
    apply_list_options cs stored o = limited o.limit (
        ordered o.order
          (list_each o stored (cut_before o.before_checkpoint_id (stable_sort is_older cs))))
