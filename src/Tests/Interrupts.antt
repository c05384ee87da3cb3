-- ===== src/Tests/Interrupts.antt =====
-- A run that pauses for one interrupt and is resumed.
use langgraph_cpp.Prelude.{
  ℕ, String, ◌≡◌, refl, ◌≢◌, Option, none, some, List, [], ◌∷◌, ok, text_key, arith, key_eq_iff,
}
use langgraph_cpp.Prelude.Map.{lookup}
use langgraph_cpp.State.{State}
use langgraph_cpp.Run.Interrupts.{
  PendingInterrupt, interrupt_metadata_from_state, with_interrupt_metadata,
  without_interrupt_metadata,
}
use langgraph_cpp.Run.Interrupts.RoundTrip.{metadata_of_list, interrupt_metadata-with}
use langgraph_cpp.Tests.Examples.{
  tree_json, plain_services, t_text, t_unsigned, t_array, t_object, no_members, a_member, no_trees,
  a_tree,
}

abbrev state : State
state = t_object (a_member "x" (t_unsigned 1) no_members)

abbrev question : PendingInterrupt
question = record {
  interrupt = record { id = "ask"; value = t_text "go on?"; resume_values = t_object no_members };
  node = "a";
  order = some 0;
}

abbrev entry : State
entry = t_object (
    a_member "id" (t_text "ask") (
      a_member "node" (t_text "a") (
        a_member "order" (t_unsigned 0)
          (a_member "step" (t_unsigned 3) (a_member "value" (t_text "go on?") no_members)))))

abbrev paused : State
paused = t_object (
    a_member "__interrupt__"
      (t_object (
        a_member "interrupts" (t_array (a_tree entry no_trees))
          (a_member "step" (t_unsigned 3) no_members)))
      (a_member "x" (t_unsigned 1) no_members))

pauses : with_interrupt_metadata state (question ∷ []) 3 ≡ ok paused
unfolding with_interrupt_metadata langgraph_cpp.Prelude.Map.insert
pauses = refl

interrupt_metadata-with_example :
    interrupt_metadata_from_state paused ≡ ok (metadata_of_list 3 (question ∷ []))
interrupt_metadata-with_example =
    interrupt_metadata-with state question [] 3 paused (([], refl), tt) pauses

resumes : without_interrupt_metadata paused ≡ ok state
unfolding without_interrupt_metadata langgraph_cpp.Prelude.Map.erase
resumes = refl
