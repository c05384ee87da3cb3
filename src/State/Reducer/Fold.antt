-- ===== src/State/Reducer/Fold.antt =====
-- `applyStateUpdate` as a whole: which fields change, and to what.
use langgraph_cpp.Prelude.{
  String, ◌≡◌, refl, sym, subst, ◌∙◌, ap, true, false, Option, none, some, List, [], ◌∷◌, ◌++◌,
  append_assoc, or_fail, labelled, invalid_argument, Result, ok, err, ◌>>=◌, >>=-eq-ok,
  ok-injective, text_key, if◌then◌else◌, arith, key_eq_iff,
}
use langgraph_cpp.Prelude.Map.{
  lookup, insert, lookup-insert, lookup-insert_self, insert-insert, IsUnique,
}
use langgraph_cpp.Json.{
  JsonLib, Json, Fields, as_object, fields, json_array, json_object, array, object, text,
}
use langgraph_cpp.State.{
  Services, State, StateUpdate, is_overwrite_json, overwrite_from_json, overwrite_to_json,
  state_from_json_value,
}
use langgraph_cpp.State.Reducer.{
  ReducerKind, ReducerRegistry, apply_append, apply_merge_object, apply_add_messages, insert_all,
  apply_kind, custom_reducer_for, reducer_for, append_target, appended_items, merge_target,
  current_messages, messages_from_add_messages_value, merge_messages, member, overwrite, append,
  add_messages, merge_object, apply_field, apply_fields, apply_state_update, apply_reducer,
  ReducerFunction,
}

module _ ⦃J : JsonLib⦄ where
  abbrev pub or_else : Option Json → Option Json → Option Json
  or_else none b = b
  or_else (some a) b = some a

  -- The merge of two objects is their union, in which the update wins: of an update that names no
  -- key twice, a key has the value it has there, or else the one it had before.
  pub lookup-insert_all :
      (source target : Fields) (k : String)
      → IsUnique source
      → lookup k (insert_all source target) ≡ or_else (lookup k source) (lookup k target)
  unfolding insert_all lookup
  lookup-insert_all [] target k h = refl
  lookup-insert_all ((i, v) ∷ source) target k h = ground (
    arith,
    lookup-insert_all source (insert i v target) k h.1,
    lookup-insert i k v target,
    key_eq_iff i k,
  )

  apply_append_array :
      (state : Fields) (field : String) (ys : List Json)
      → apply_append state field (json_array ys) ≡ (
          or_fail
            (append_target (J.view (member field state)))
            invalid_argument
            (labelled "append reducer target must be an array: " field)
          >>= λ xs. ok (insert field (json_array (xs ++ ys)) state))
  unfolding apply_append
  apply_append_array state field ys = simp J.view-make

  append_after :
      (state : Fields) (field message : String) (xs ys : List Json) (o : Option (List Json))
      → ((or_fail o invalid_argument message >>= λ zs.
            ok (insert field (json_array (zs ++ xs)) state))
          >>= λ s. apply_append s field (json_array ys))
        ≡ (or_fail o invalid_argument message >>= λ zs.
            ok (insert field (json_array (zs ++ (xs ++ ys))) state))
  append_after state field message xs ys none = refl
  append_after state field message xs ys (some zs) =
      rw
        (
          apply_append_array (insert field (json_array (zs ++ xs)) state) field ys,
          lookup-insert_self field (json_array (zs ++ xs)) state,
          J.view-make (array (zs ++ xs)),
        )
        (rw (
          insert-insert field (json_array ((zs ++ xs) ++ ys)) (json_array (zs ++ xs)) state,
          append_assoc zs xs ys,
        ))

  -- Two appends of arrays to one field are one append of both, errors included.
  pub apply_append-append :
      (state : Fields) (field : String) (xs ys : List Json)
      → (apply_append state field (json_array xs) >>= λ s. apply_append s field (json_array ys))
        ≡ apply_append state field (json_array (xs ++ ys))
  apply_append-append state field xs ys =
      rw (apply_append_array state field xs, apply_append_array state field (xs ++ ys))
        (append_after state field _ xs ys (append_target (J.view (member field state))))

  -- What every branch does to the state: it fails, or it writes the one field.
  abbrev Writes : Fields → String → Result Fields → Type 0
  Writes state field (err e) = Unit {0}
  Writes state field (ok m) = (x : Json) × (m ≡ insert field x state)

  Writes-bind {ℓ} :
      {A : Type ℓ} (state : Fields) (field : String) (m : Result A) (f : A → Json)
      → Writes state field (m >>= λ a. ok (insert field (f a) state))
  Writes-bind state field (ok a) f = (f a, refl)
  Writes-bind state field (err e) f = tt

  Writes-fail {ℓ} :
      {A : Type ℓ} (state : Fields) (field : String) (m : Result A) (f : A → Result Fields)
      → ((a : A) → Writes state field (f a))
      → Writes state field (m >>= f)
  Writes-fail state field (ok a) f h = h a
  Writes-fail state field (err e) f h = tt

module _ ⦃J : JsonLib⦄ ⦃C : Services⦄ where
  apply_kind-Writes :
      (k : ReducerKind) (state : Fields) (field : String) (v : Json)
      → Writes state field (apply_kind k state field v)
  unfolding apply_kind apply_append apply_add_messages apply_merge_object
  apply_kind-Writes overwrite state field v = (v, refl)
  apply_kind-Writes append state field v =
      Writes-bind state field (or_fail (append_target (J.view (member field state))) _ _)
        (λ xs. json_array (xs ++ appended_items (J.view v) v))
  apply_kind-Writes add_messages state field v =
      Writes-fail state field (current_messages (member field state)) _ λ left.
        Writes-bind state field (messages_from_add_messages_value v)
          (λ right. C.messages_to_json (merge_messages left right))
  apply_kind-Writes merge_object state field v =
      Writes-fail state field (or_fail (as_object v) _ _) _ λ source.
        Writes-bind state field (or_fail (merge_target (J.view (member field state))) _ _)
          (λ target. json_object (insert_all source target))

  apply_reducer-Writes :
      (custom : Option ReducerFunction) (k : ReducerKind) (state : Fields) (field : String)
      (v : Json)
      → Writes state field (apply_reducer custom k state field v)
  unfolding apply_reducer
  apply_reducer-Writes none k state field v = apply_kind-Writes k state field v
  apply_reducer-Writes (some f) k state field v =
      Writes-bind state field (f (member field state) v) (λ x. x)

  apply_field-Writes :
      (r : ReducerRegistry) (state : Fields) (field : String) (v : Json)
      → Writes state field (apply_field r state field v)
  unfolding apply_field
  apply_field-Writes r state field v =
      elim (is_overwrite_json v)
        as (λ b. Writes state field (
          if b
          then (overwrite_from_json v >>= λ x. ok (insert field x state))
          else apply_reducer (custom_reducer_for field r) (reducer_for field r) state field v)) [
            | true ↦ Writes-bind state field (overwrite_from_json v) (λ x. x)
            | false ↦
                apply_reducer-Writes (custom_reducer_for field r) (reducer_for field r) state field
                  v
          ]

  apply_fields-frame :
      (r : ReducerRegistry) (update state : Fields) (k : String) (state' : Fields)
      → lookup k update ≡ none
      → apply_fields r update state ≡ ok state'
      → lookup k state' ≡ lookup k state
  unfolding apply_fields lookup
  apply_fields-frame r [] state k state' h e = ground arith
  apply_fields-frame r ((field, v) ∷ rest) state k state' h e =
      let (m, wrote, after) = >>=-eq-ok (apply_field r state field v) (apply_fields r rest) e in
      let (x, is) = subst (Writes state field) wrote (apply_field-Writes r state field v) in
      apply_fields-frame r rest m k state' (ground (arith, key_eq_iff field k)) after
      ∙ ap (lookup k) is
      ∙ (lookup-insert field k x state ∙ ground (arith, key_eq_iff field k))

  pub fields-json_object : (m : Fields) → fields (json_object m) ≡ m
  fields-json_object m = rw (J.view-make (object m))

  pub apply_state_update-eq-ok :
      (state : State) (update : StateUpdate) (r : ReducerRegistry) (state' : State)
      → apply_state_update state update r ≡ ok state'
      → apply_fields r (fields update) (fields state) ≡ ok (fields state')
  unfolding apply_state_update state_from_json_value
  apply_state_update-eq-ok state update r state' e =
      let (m, merged, stored) =
        >>=-eq-ok (apply_fields r (fields update) (fields state))
          (λ m. state_from_json_value (json_object m)) e in
      let (_, _, checked) = >>=-eq-ok (or_fail (as_object (json_object m)) _ _) _ stored in
      let (_, _, same) = >>=-eq-ok (C.check_limits "state" (json_object m)) _ checked in
      merged ∙ ap ok (sym (fields-json_object m) ∙ ap fields (ok-injective same))

  -- A successful update leaves every field that it does not name as it was.
  pub apply_state_update-frame :
      (state : State) (update : StateUpdate) (r : ReducerRegistry) (k : String) (state' : State)
      → lookup k (fields update) ≡ none
      → apply_state_update state update r ≡ ok state'
      → lookup k (fields state') ≡ lookup k (fields state)
  apply_state_update-frame state update r k state' h e =
      apply_fields-frame r (fields update) (fields state) k (fields state') h
        (apply_state_update-eq-ok state update r state' e)

  is_overwrite : (v : Json) → is_overwrite_json (overwrite_to_json v) ≡ true
  unfolding is_overwrite_json overwrite_to_json insert lookup
  is_overwrite v =
      simp (is_overwrite_json, J.view-make) (rw (J.view-make (text "__overwrite__")) refl)

  from_overwrite : (v : Json) → overwrite_from_json (overwrite_to_json v) ≡ ok v
  unfolding overwrite_from_json overwrite_to_json insert lookup
  from_overwrite v = simp (overwrite_from_json, is_overwrite v, J.view-make)

  -- A value wrapped as an overwrite replaces the field, whatever reducer is registered.
  pub apply_field-overwrite :
      (r : ReducerRegistry) (state : Fields) (field : String) (v : Json)
      → apply_field r state field (overwrite_to_json v) ≡ ok (insert field v state)
  unfolding apply_field
  apply_field-overwrite r state field v = rw (is_overwrite v, from_overwrite v) refl
