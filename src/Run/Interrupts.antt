-- ===== src/Run/Interrupts.antt =====
-- Interrupts as a part of a run's state: `interruptMetadataFromJson`, `interruptMetadataFromState`,
-- `resumeValueForInterrupt`, `withInterruptMetadata` and `withoutInterruptMetadata`.
pub mod RoundTrip
use langgraph_cpp.Prelude.{
  ℕ, String, Bool, true, false, Option, none, some, List, [], ◌∷◌, Result, ok, err, fail, fail_if,
  or_fail, labelled, ◌>>=◌, ◌>>◌, invalid_argument, failed_precondition, not, ◌&&◌, ◌==◌, text_key,
  if◌then◌else◌, is_empty, has_value, leb,
}
use langgraph_cpp.Prelude.Map.{lookup, insert, erase, contains}
use langgraph_cpp.Json.{
  JsonLib, Json, Fields, View, null, array, object, fields, as_object, as_array, as_text,
  as_unsigned, json_object, json_array, json_text, json_unsigned,
}
use langgraph_cpp.State.{Services, State, state_from_json_value}
use langgraph_cpp.State.Reducer.{insert_all}
use langgraph_cpp.Graph.Types.{Interrupt}

abbrev pub interrupt_state_key : String
interrupt_state_key = "__interrupt__"

module _ ⦃J : JsonLib⦄ where
  pub record PendingInterrupt : Type 0 where
    pub interrupt : Interrupt
    pub node : String
    pub order : Option ℕ

  pub record InterruptMetadata : Type 0 where
    pub id : String
    pub node : String
    pub step : ℕ
    pub value : Json
    pub resume_values : Json
    pub order : Option ℕ

  -- `json::empty`
  abbrev empty_view : View Json J.Other → Bool
  empty_view null = true
  empty_view (array xs) = is_empty xs
  empty_view (object m) = is_empty m
  empty_view _ = false

  abbrev pub json_is_empty : Json → Bool
  json_is_empty j = empty_view (J.view j)

  text_field : Option Json → Result String
  text_field none = ok ""
  text_field (some v) =
      or_fail (as_text v) invalid_argument "interrupt metadata id must be a string"

  step_field : ℕ → Option Json → Result ℕ
  step_field fallback none = ok fallback
  step_field fallback (some v) =
      or_fail (as_unsigned v) invalid_argument "interrupt metadata step must be an unsigned integer"

  value_field : Option Json → Json
  value_field none = json_object []
  value_field (some v) = v

  object_field : Option Json → Result Json
  object_field none = ok (json_object [])
  object_field (some v) =
      or_fail (as_object v) invalid_argument "interrupt metadata resume_values must be an object"
      >>= λ _. ok v

  order_field : Option Json → Result (Option ℕ)
  order_field none = ok none
  order_field (some v) =
      or_fail (as_unsigned v) invalid_argument
        "interrupt metadata order must be an unsigned integer"
      >>= λ n. ok (some n)

  node_field : Option Json → Result String
  node_field none = fail invalid_argument "interrupt metadata node must be a string"
  node_field (some v) =
      or_fail (as_text v) invalid_argument "interrupt metadata node must be a string"

  pub metadata_from_fields : ℕ → Fields → Result InterruptMetadata
  unfolding text_field step_field value_field object_field order_field node_field
  metadata_from_fields fallback f = do
    node ← node_field (lookup "node" f)
    id ← text_field (lookup "id" f)
    step ← step_field fallback (lookup "step" f)
    resume_values ← object_field (lookup "resume_values" f)
    order ← order_field (lookup "order" f)
    ok (record {
      id = id;
      node = node;
      step = step;
      value = value_field (lookup "value" f);
      resume_values = resume_values;
      order = order;
    })

  pub interrupt_metadata_from_json : Json → ℕ → Result InterruptMetadata
  unfolding metadata_from_fields
  interrupt_metadata_from_json value fallback =
      or_fail (as_object value) invalid_argument "interrupt metadata entry must be an object"
      >>= metadata_from_fields fallback

  pub metadata_of_all : List Json → ℕ → Result (List InterruptMetadata)
  unfolding interrupt_metadata_from_json
  metadata_of_all [] step = ok []
  metadata_of_all (j ∷ js) step =
      interrupt_metadata_from_json j step >>= λ m. metadata_of_all js step >>= λ ms. ok (m ∷ ms)

  -- The entries of a list, or the object itself as the one entry.
  pub metadata_entries : Json → ℕ → Option Json → Result (List InterruptMetadata)
  unfolding metadata_of_all interrupt_metadata_from_json
  metadata_entries whole step none = interrupt_metadata_from_json whole step >>= λ m. ok (m ∷ [])
  metadata_entries whole step (some list) =
      or_fail (as_array list) invalid_argument "interrupt metadata interrupts must be an array"
      >>= λ js. metadata_of_all js step

  pub metadata_at : Option Json → Result (List InterruptMetadata)
  unfolding metadata_entries step_field
  metadata_at none = ok []
  metadata_at (some found) =
      or_fail (as_object found) invalid_argument "interrupt metadata must be an object" >>= λ f.
      step_field 0 (lookup "step" f) >>= λ step. metadata_entries found step (lookup "interrupts" f)

  pub interrupt_metadata_from_state : State → Result (List InterruptMetadata)
  unfolding metadata_at
  interrupt_metadata_from_state state = metadata_at (lookup interrupt_state_key (fields state))

  -- The answers given before, with the command's value put to them.
  merge_resume : Fields → Json → String → Option Fields → Json
  merge_resume known value id (some given) = json_object (insert_all given known)
  merge_resume known value id none =
      json_object (insert (if id == "" then "value" else id) value known)

  -- With several interrupts the command's value is an object by interrupt id or by node.
  resume_by_name : String → String → Fields → Result Json
  resume_by_name id node given = elim (if id == "" then none else lookup id given) [
    | some value ↦ ok value
    | none ↦
        or_fail (lookup node given) failed_precondition
          (labelled "resume value missing for interrupted node: " node)
  ]

  pub resume_value_for_interrupt : Json → InterruptMetadata → ℕ → Result Json
  unfolding merge_resume resume_by_name
  resume_value_for_interrupt value m count =
      if not (json_is_empty m.resume_values)
      then (or_fail (as_object m.resume_values) invalid_argument
            "interrupt metadata resume_values must be an object"
          >>= λ known. ok (merge_resume known value m.id (as_object value)))
      else if leb count 1
      then ok value
      else (or_fail (as_object value) invalid_argument
            "multi-interrupt resume value must be an object keyed by interrupt id or node"
          >>= resume_by_name m.id m.node)

  add_order : Option ℕ → Fields → Fields
  add_order none f = f
  add_order (some n) f = insert "order" (json_unsigned n) f

  pub entry_fields : ℕ → PendingInterrupt → Fields
  unfolding add_order
  entry_fields step p =
      let base = insert "value" p.interrupt.value (
        insert "step" (json_unsigned step)
          (insert "node" (json_text p.node) (insert "id" (json_text p.interrupt.id) []))) in
      let full = insert "resume_values" p.interrupt.resume_values base in
      add_order p.order (if json_is_empty p.interrupt.resume_values then base else full)

  pub entries : ℕ → List PendingInterrupt → List Json
  unfolding entry_fields
  entries step [] = []
  entries step (p ∷ ps) = json_object (entry_fields step p) ∷ entries step ps

  pub interrupt_block : ℕ → List PendingInterrupt → Json
  unfolding entries
  interrupt_block step ps =
      json_object
        (insert "interrupts" (json_array (entries step ps)) (insert "step" (json_unsigned step) []))

module _ ⦃J : JsonLib⦄ ⦃S : Services⦄ where
  unfoldable pub with_interrupt_metadata : State → List PendingInterrupt → ℕ → Result State
  unfolding interrupt_block state_from_json_value
  with_interrupt_metadata state [] step = state_from_json_value state
  with_interrupt_metadata state (p ∷ ps) step =
      state_from_json_value
        (json_object (insert interrupt_state_key (interrupt_block step (p ∷ ps)) (fields state)))

  unfoldable pub without_interrupt_metadata : State → Result State
  unfolding state_from_json_value
  without_interrupt_metadata state =
      state_from_json_value (json_object (erase interrupt_state_key (fields state)))
