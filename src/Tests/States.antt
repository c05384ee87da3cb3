-- ===== src/Tests/States.antt =====
-- Reducers on small states.
use langgraph_cpp.Prelude.{◌≡◌, refl, [], ◌∷◌, ok, text_key}
use langgraph_cpp.Prelude.Map.{lookup, insert}
use langgraph_cpp.Json.{Fields, fields}
use langgraph_cpp.State.{State, overwrite_to_json}
use langgraph_cpp.State.Reducer.{
  ReducerRegistry, no_reducers, set_kind, append, insert_all, merge_messages, apply_append,
  apply_field, apply_state_update,
}
use langgraph_cpp.State.Reducer.Messages.{upsert_all, merge_messages-upsert_all}
use langgraph_cpp.State.Reducer.Fold.{apply_state_update-frame}
use langgraph_cpp.Tests.Examples.{
  tree_json, plain_services, t_unsigned, t_object, no_members, a_member,
}

merge_messages-upsert_all_example :
    merge_messages ("a" ∷ "b" ∷ []) ("b" ∷ "" ∷ "c" ∷ [])
    ≡ upsert_all ("b" ∷ "" ∷ "c" ∷ []) ("a" ∷ "b" ∷ [])
merge_messages-upsert_all_example = merge_messages-upsert_all ("a" ∷ "b" ∷ []) ("b" ∷ "" ∷ "c" ∷ [])

abbrev source : Fields
source = ("x", t_unsigned 1) ∷ ("y", t_unsigned 2) ∷ []

abbrev target : Fields
target = ("y", t_unsigned 3) ∷ ("z", t_unsigned 4) ∷ []

abbrev old_state : State
old_state = t_object (a_member "keep" (t_unsigned 1) no_members)

abbrev update : State
update = t_object (a_member "new" (t_unsigned 2) no_members)

abbrev new_state : State
new_state = t_object (a_member "keep" (t_unsigned 1) (a_member "new" (t_unsigned 2) no_members))

updated : apply_state_update old_state update no_reducers ≡ ok new_state
unfolding apply_state_update langgraph_cpp.State.Reducer.apply_field
    langgraph_cpp.State.is_overwrite_json lookup insert langgraph_cpp.State.state_from_json_value
updated = refl

apply_state_update-frame_example :
    lookup "keep" (fields new_state) ≡ lookup "keep" (fields old_state)
unfolding lookup
apply_state_update-frame_example =
    apply_state_update-frame old_state update no_reducers "keep" new_state refl updated
