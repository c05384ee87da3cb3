-- ===== src/State.antt =====
-- State and StateUpdate: src/foundation/serialization/state.cpp, src/langgraph/state/state_update.cpp.
pub mod Reducer
use langgraph_cpp.Prelude.{
  ℕ, String, Bool, true, false, Option, none, some, List, Result, ok, err, fail_if, or_fail, not,
  text_key, [], ◌>>=◌, ◌>>◌, invalid_argument, ◌==◌, is_empty,
}
use langgraph_cpp.Prelude.Map.{lookup, insert}
use langgraph_cpp.Json.{
  JsonLib, Json, Fields, as_object, as_text, json_object, json_text, fields, View, object,
}

-- What states, reducers and graphs call in other parts of the repository: the limits on a decoded
-- value (json_limits.hpp), the message codec (message.cpp) and the schema validator (json_schema).
module _ ⦃J : JsonLib⦄ where
  pub record Services : Type 1 where
    pub check_limits : String → Json → Result (Unit {0})
    pub Message : Type 0
    pub message_id : Message → String
    pub message_from_json : Json → Result Message
    pub messages_from_json : Json → Result (List Message)
    pub messages_to_json : List Message → Json
    pub Schema : Type 0
    pub check_schema : Json → Schema → Result (Unit {0})

  -- A State is a value that is an object; its constructor is private.
  abbrev pub State : Type 0
  State = Json

  abbrev pub StateUpdate : Type 0
  StateUpdate = Json

  -- `isOverwriteJson`: an object whose "type" is the text "__overwrite__".
  unfoldable pub is_overwrite_json : Json → Bool
  is_overwrite_json j = elim (lookup "type" (fields j)) [
    | none ↦ false
    | some t ↦ elim (as_text t) [ none ↦ false | some s ↦ s == "__overwrite__" ]
  ]

  pub overwrite_to_json : Json → Json
  overwrite_to_json v =
      json_object (insert "value" v (insert "type" (json_text "__overwrite__") []))

  pub overwrite_from_json : Json → Result Json
  unfolding is_overwrite_json
  overwrite_from_json j = do
    fail_if (not (is_overwrite_json j)) invalid_argument
        "overwrite update must declare type __overwrite__"
    or_fail (lookup "value" (fields j)) invalid_argument "overwrite update value is required"

module _ ⦃J : JsonLib⦄ ⦃C : Services⦄ where
  -- `State::fromJsonValue`.
  unfoldable pub state_from_json_value : Json → Result State
  state_from_json_value j = do
    _ ← or_fail (as_object j) invalid_argument "state must be a JSON object"
    C.check_limits "state" j
    ok j

  -- `StateUpdate::fromJsonValue`.
  unfoldable pub update_from_json_value : Json → Result StateUpdate
  update_from_json_value j = do
    _ ← or_fail (as_object j) invalid_argument "state update must be a JSON object"
    C.check_limits "state update" j
    ok j
