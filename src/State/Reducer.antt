-- ===== src/State/Reducer.antt =====
-- src/langgraph/state/reducer.cpp: how a state update is merged into a state, field by field.
pub mod Messages
pub mod Fold
use langgraph_cpp.Prelude.{
  ℕ, zero, suc, ◌+◌, String, ◌≡◌, Bool, true, false, Option, none, some, List, [], ◌∷◌, ◌++◌,
  Result, ok, err, fail, or_fail, labelled, ◌>>=◌, ◌>>◌, invalid_argument, ◌==◌, is_empty,
  has_value, text_key, if◌then◌else◌, length,
}
use langgraph_cpp.Prelude.Map.{Map, lookup, insert, contains}
use langgraph_cpp.Json.{
  JsonLib, Json, Fields, as_array, as_object, is_null, json_array, json_object, json_null, fields,
  View, null, array, object,
}
use langgraph_cpp.State.{
  Services, State, StateUpdate, is_overwrite_json, overwrite_from_json, state_from_json_value,
}

pub data ReducerKind : Type 0 where
  overwrite append add_messages merge_object : ReducerKind

-- `reducerKindName`
pub reducer_kind_name : ReducerKind → String
reducer_kind_name overwrite = "overwrite"
reducer_kind_name append = "append"
reducer_kind_name add_messages = "add_messages"
reducer_kind_name merge_object = "merge_object"

-- A write at an index that is in range.
abbrev pub set {ℓ} : {A : Type ℓ} → List A → ℕ → A → List A
set [] i v = []
set (x ∷ xs) zero v = v ∷ xs
set (x ∷ xs) (suc i) v = x ∷ set xs i v

module _ ⦃J : JsonLib⦄ where
  abbrev pub ReducerFunction : Type 0
  ReducerFunction = Json → Json → Result Json

  pub record ReducerRegistry : Type 0 where
    pub reducers : Map String ReducerKind
    pub custom_reducers : Map String ReducerFunction

  abbrev pub no_reducers : ReducerRegistry
  no_reducers = record { reducers = []; custom_reducers = [] }

  -- `ReducerRegistry::set`, for a kind and for a function; an empty function is ignored.
  pub set_kind : String → ReducerKind → ReducerRegistry → ReducerRegistry
  set_kind field kind r = record r { reducers = insert field kind r.reducers }

  pub set_custom : String → Option ReducerFunction → ReducerRegistry → ReducerRegistry
  set_custom field none r = r
  set_custom field (some f) r = record r { custom_reducers = insert field f r.custom_reducers }

  abbrev or_overwrite : Option ReducerKind → ReducerKind
  or_overwrite none = overwrite
  or_overwrite (some k) = k

  pub reducer_for : String → ReducerRegistry → ReducerKind
  reducer_for field r = or_overwrite (lookup field r.reducers)

  pub custom_reducer_for : String → ReducerRegistry → Option ReducerFunction
  custom_reducer_for field r = lookup field r.custom_reducers

  -- `state[field]`: a missing member reads as null.
  abbrev pub or_null : Option Json → Json
  or_null none = json_null
  or_null (some j) = j

  abbrev pub member : String → Fields → Json
  member field m = or_null (lookup field m)

  -- The array that `append` extends: null counts as the empty one.
  abbrev pub append_target : View Json J.Other → Option (List Json)
  append_target null = some []
  append_target (array xs) = some xs
  append_target _ = none

  abbrev pub appended_items : View Json J.Other → Json → List Json
  appended_items (array ys) value = ys
  appended_items _ value = value ∷ []

  pub apply_append : Fields → String → Json → Result Fields
  apply_append state field value = do
    xs ←
        or_fail (append_target (J.view (member field state))) invalid_argument
          (labelled "append reducer target must be an array: " field)
    ok (insert field (json_array (xs ++ appended_items (J.view value) value)) state)

  abbrev pub merge_target : View Json J.Other → Option Fields
  merge_target null = some []
  merge_target (object m) = some m
  merge_target _ = none

  -- `for (it : value) target[it.key()] = it.value();`
  pub insert_all : Fields → Fields → Fields
  insert_all [] target = target
  insert_all ((k, v) ∷ rest) target = insert_all rest (insert k v target)

  pub apply_merge_object : Fields → String → Json → Result Fields
  unfolding insert_all
  apply_merge_object state field value = do
    source ←
        or_fail (as_object value) invalid_argument
          (labelled "merge_object reducer update must be an object: " field)
    target ←
        or_fail (merge_target (J.view (member field state))) invalid_argument
          (labelled "merge_object reducer target must be an object: " field)
    ok (insert field (json_object (insert_all source target)) state)

module _ ⦃J : JsonLib⦄ ⦃C : Services⦄ where
  abbrev one_message : Result C.Message → Result (List C.Message)
  one_message m = m >>= λ x. ok (x ∷ [])

  abbrev messages_from_view : View Json J.Other → Json → Result (List C.Message)
  messages_from_view (array _) value = C.messages_from_json value
  messages_from_view (object _) value = one_message (C.message_from_json value)
  messages_from_view _ value =
      fail invalid_argument "add_messages reducer value must be a message or message array"

  pub messages_from_add_messages_value : Json → Result (List C.Message)
  messages_from_add_messages_value value = messages_from_view (J.view value) value

  -- `indexById`, over the messages from `index` on.
  pub index_by_id : List C.Message → ℕ → Map String ℕ → Map String ℕ
  index_by_id [] index ids = ids
  index_by_id (m ∷ ms) index ids =
      index_by_id ms (suc index)
        (if C.message_id m == "" then ids else insert (C.message_id m) index ids)

  -- One turn of the loop over `right`: replace the message with the same id, or append.
  abbrev pub place_at :
      C.Message → Option ℕ → List C.Message × Map String ℕ → List C.Message × Map String ℕ
  place_at m (some i) (left, ids) = (set left i m, ids)
  place_at m none (left, ids) = (left ++ m ∷ [], insert (C.message_id m) (length left) ids)

  pub place_message : C.Message → List C.Message × Map String ℕ → List C.Message × Map String ℕ
  place_message m (left, ids) =
      if C.message_id m == ""
      then (left ++ m ∷ [], ids)
      else place_at m (lookup (C.message_id m) ids) (left, ids)

  pub place_messages : List C.Message → List C.Message × Map String ℕ → List C.Message
  place_messages [] (left, ids) = left
  place_messages (m ∷ ms) acc = place_messages ms (place_message m acc)

  pub merge_messages : List C.Message → List C.Message → List C.Message
  unfolding index_by_id place_messages
  merge_messages left right = place_messages right (left, index_by_id left 0 [])

  abbrev pub current_messages : Json → Result (List C.Message)
  current_messages j = if is_null j then ok [] else messages_from_add_messages_value j

  pub apply_add_messages : Fields → String → Json → Result Fields
  unfolding merge_messages
  apply_add_messages state field value = do
    left ← current_messages (member field state)
    right ← messages_from_add_messages_value value
    ok (insert field (C.messages_to_json (merge_messages left right)) state)

  unfoldable pub apply_kind : ReducerKind → Fields → String → Json → Result Fields
  apply_kind overwrite state field value = ok (insert field value state)
  apply_kind append state field value = apply_append state field value
  apply_kind add_messages state field value = apply_add_messages state field value
  apply_kind merge_object state field value = apply_merge_object state field value

  -- A field with no custom reducer goes by its kind.
  pub apply_reducer : Option ReducerFunction → ReducerKind → Fields → String → Json → Result Fields
  unfolding apply_kind
  apply_reducer (some f) kind state field value = do
    reduced ← f (member field state) value
    ok (insert field reduced state)
  apply_reducer none kind state field value = apply_kind kind state field value

  -- The body of the loop in `applyStateUpdate`.
  unfoldable pub apply_field : ReducerRegistry → Fields → String → Json → Result Fields
  unfolding apply_reducer custom_reducer_for reducer_for
  apply_field r state field value =
      if is_overwrite_json value
      then (overwrite_from_json value >>= λ v. ok (insert field v state))
      else apply_reducer (custom_reducer_for field r) (reducer_for field r) state field value

  unfoldable pub apply_fields : ReducerRegistry → Fields → Fields → Result Fields
  apply_fields r [] state = ok state
  apply_fields r ((field, value) ∷ rest) state =
      apply_field r state field value >>= apply_fields r rest

  unfoldable pub apply_state_update : State → StateUpdate → ReducerRegistry → Result State
  unfolding apply_fields state_from_json_value
  apply_state_update state update r = do
    merged ← apply_fields r (fields update) (fields state)
    state_from_json_value (json_object merged)
