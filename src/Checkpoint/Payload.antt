-- ===== src/Checkpoint/Payload.antt =====
-- What a storage holds for a checkpoint or a write: the codec's payload in a JSON object. The codec,
-- which a client can choose, and the text of a JSON value are interfaces.
use langgraph_cpp.Prelude.{
  String, Bool, Option, none, some, [], ◌∷◌, Result, ok, fail_if, or_fail, ◌>>=◌, ◌>>◌,
  invalid_argument, ◌==◌, text_key,
}
use langgraph_cpp.Prelude.Map.{lookup}
use langgraph_cpp.Json.{JsonLib, Json, Fields, json_object, json_text, as_object, as_text}
use langgraph_cpp.Checkpoint.Types.{Checkpoint, CheckpointWrite}

pub record Payload : Type 0 where
  pub content_type : String
  pub data_text : String

module _ ⦃J : JsonLib⦄ where
  -- `json::dump`, and `parseJsonWithLimits` for a stored checkpoint.
  pub record JsonText : Type 0 where
    pub dump : Json → String
    pub parse : String → Result Json

  -- `ICheckpointCodec`
  pub record CheckpointCodec : Type 0 where
    pub encode : Checkpoint → Result Payload
    pub decode : Payload → Result Checkpoint
    pub encode_write : CheckpointWrite → Result Payload
    pub decode_write : Payload → Result CheckpointWrite

  unfoldable pub is_checkpoint_payload : String → Bool
  is_checkpoint_payload content_type =
      content_type == "application/vnd.langgraph-cpp.checkpoint+json"

  abbrev pub payload_json : Payload → Json
  payload_json p =
      json_object
        (("content_type", json_text p.content_type) ∷ ("data", json_text p.data_text) ∷ [])

  module _ (texts : JsonText) where
    unfoldable pub storage_value_from_payload : Payload → Result String
    storage_value_from_payload p = do
      fail_if (p.content_type == "") invalid_argument
          "checkpoint payload content type cannot be empty"
      ok (texts.dump (payload_json p))

    abbrev text_at : String → Fields → Option String
    text_at name fields = elim (lookup name fields) [ none ↦ none | some j ↦ as_text j ]

    unfoldable pub payload_from_storage_value : String → Result Payload
    payload_from_storage_value value = do
      parsed ← texts.parse value
      fields ← or_fail (as_object parsed) invalid_argument "stored checkpoint must be a JSON object"
      content_type ←
          or_fail (text_at "content_type" fields) invalid_argument
            "stored checkpoint content_type is required"
      content ←
          or_fail (text_at "data" fields) invalid_argument "stored checkpoint data is required"
      ok (record { content_type = content_type; data_text = content })
