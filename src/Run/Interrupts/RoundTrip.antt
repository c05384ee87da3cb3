-- ===== src/Run/Interrupts/RoundTrip.antt =====
-- The interrupts that a paused run stores in its state, and what a resumed run reads there.
use langgraph_cpp.Prelude.{
  ℕ, String, ◌≡◌, refl, sym, ◌∙◌, ap, Option, none, some, List, [], ◌∷◌, ok, or_fail, >>=-eq-ok,
  ok-injective, text_key, if◌then◌else◌, ◌≢◌, key_eq_iff, Bool-cases, inl, inr, arith, All,
}
use langgraph_cpp.Prelude.Map.{lookup, insert, erase, lookup-insert_self, lookup-erase}
use langgraph_cpp.Json.{
  JsonLib, Json, Fields, object, array, text, unsigned, fields, as_object, as_array, as_text,
  as_unsigned, json_object, json_array, json_text, json_unsigned,
}
use langgraph_cpp.State.{Services, State, state_from_json_value}
use langgraph_cpp.State.Reducer.Fold.{fields-json_object}
use langgraph_cpp.Run.Interrupts.{
  PendingInterrupt, InterruptMetadata, json_is_empty, interrupt_state_key, metadata_from_fields,
  interrupt_metadata_from_json, metadata_of_all, metadata_entries, metadata_at,
  interrupt_metadata_from_state, entry_fields, entries, interrupt_block, with_interrupt_metadata,
  without_interrupt_metadata,
}

module _ ⦃J : JsonLib⦄ where
  -- What is read back of an interrupt: what was stored, with an empty object for empty answers.
  abbrev pub metadata_of : ℕ → PendingInterrupt → InterruptMetadata
  metadata_of step p = record {
    id = p.interrupt.id;
    node = p.node;
    step = step;
    value = p.interrupt.value;
    resume_values =
        if json_is_empty p.interrupt.resume_values
        then json_object []
        else p.interrupt.resume_values;
    order = p.order;
  }

  -- The answers of an interrupt are an object.
  abbrev pub HasAnswers : PendingInterrupt → Type 0
  HasAnswers p = (m : Fields) × (as_object p.interrupt.resume_values ≡ some m)

  abbrev pub metadata_of_list : ℕ → List PendingInterrupt → List InterruptMetadata
  metadata_of_list step [] = []
  metadata_of_list step (p ∷ ps) = metadata_of step p ∷ metadata_of_list step ps

  as_object-json_object : (m : Fields) → as_object (json_object m) ≡ some m
  as_object-json_object m = rw (J.view-make (object m)) refl

  as_text-json_text : (s : String) → as_text (json_text s) ≡ some s
  as_text-json_text s = rw (J.view-make (text s)) refl

  as_unsigned-json_unsigned : (n : ℕ) → as_unsigned (json_unsigned n) ≡ some n
  as_unsigned-json_unsigned n = rw (J.view-make (unsigned n)) refl

  as_array-json_array : (xs : List Json) → as_array (json_array xs) ≡ some xs
  as_array-json_array xs = rw (J.view-make (array xs)) refl

  entry_round_trip :
      (step fallback : ℕ) (p : PendingInterrupt) (order : Option ℕ)
      → p.order ≡ order
      → HasAnswers p
      → metadata_from_fields fallback (entry_fields step p) ≡ ok (metadata_of step p)
  unfolding metadata_from_fields entry_fields lookup insert
  entry_round_trip step fallback p none o h =
      elim (Bool-cases (json_is_empty p.interrupt.resume_values)) [
        | inl blank ↦
            rw (o, blank)
              (rw
                (
                  J.view-make (text p.interrupt.id),
                  J.view-make (text p.node),
                  J.view-make (unsigned step),
                )
                refl)
        | inr full ↦
            rw (o, full)
              (rw
                (
                  J.view-make (text p.interrupt.id),
                  J.view-make (text p.node),
                  J.view-make (unsigned step),
                  h.1,
                )
                refl)
      ]
  entry_round_trip step fallback p (some n) o h =
      elim (Bool-cases (json_is_empty p.interrupt.resume_values)) [
        | inl blank ↦
            rw (o, blank)
              (rw
                (
                  J.view-make (text p.interrupt.id),
                  J.view-make (text p.node),
                  J.view-make (unsigned step),
                  J.view-make (unsigned n),
                )
                refl)
        | inr full ↦
            rw (o, full)
              (rw
                (
                  J.view-make (text p.interrupt.id),
                  J.view-make (text p.node),
                  J.view-make (unsigned step),
                  J.view-make (unsigned n),
                  h.1,
                )
                refl)
      ]

  entries_round_trip :
      (step fallback : ℕ) (ps : List PendingInterrupt)
      → All HasAnswers ps
      → metadata_of_all (entries step ps) fallback ≡ ok (metadata_of_list step ps)
  unfolding metadata_of_all entries interrupt_metadata_from_json
  entries_round_trip step fallback [] h = refl
  entries_round_trip step fallback (p ∷ ps) h =
      rw
        (
          as_object-json_object (entry_fields step p),
          entry_round_trip step fallback p p.order refl h.0,
          entries_round_trip step fallback ps h.1,
        )
        refl

  block_round_trip :
      (step : ℕ) (ps : List PendingInterrupt)
      → All HasAnswers ps
      → metadata_at (some (interrupt_block step ps)) ≡ ok (metadata_of_list step ps)
  unfolding metadata_at metadata_entries interrupt_block lookup insert
  block_round_trip step ps h =
      rw
        (J.view-make (
          object
            (("interrupts", json_array (entries step ps)) ∷ ("step", json_unsigned step) ∷ [])))
        (rw (J.view-make (unsigned step), J.view-make (array (entries step ps)))
          (entries_round_trip step step ps h))

module _ ⦃J : JsonLib⦄ ⦃S : Services⦄ where
  stored_fields :
      (m : Fields) (s' : State) → state_from_json_value (json_object m) ≡ ok s' → fields s' ≡ m
  unfolding state_from_json_value
  stored_fields m s' e =
      let (f, seen, e2) = >>=-eq-ok (or_fail (as_object (json_object m)) _ _) _ e in
      let (u, fits, same) = >>=-eq-ok (S.check_limits "state" (json_object m)) _ e2 in
      sym (ap fields (ok-injective same)) ∙ fields-json_object m

  -- When a run with interrupts pauses and its state can be stored, the stored state reads back as
  -- the same interrupts in the same order, with an empty object for empty answers, if the answers
  -- of each interrupt are an object.
  pub interrupt_metadata-with :
      (state : State) (p : PendingInterrupt) (ps : List PendingInterrupt) (step : ℕ) (s' : State)
      → All HasAnswers (p ∷ ps)
      → with_interrupt_metadata state (p ∷ ps) step ≡ ok s'
      → interrupt_metadata_from_state s' ≡ ok (metadata_of_list step (p ∷ ps))
  unfolding with_interrupt_metadata interrupt_metadata_from_state
  interrupt_metadata-with state p ps step s' h e =
      let block = interrupt_block step (p ∷ ps) in
      ap (λ f. metadata_at (lookup interrupt_state_key f))
        (stored_fields (insert interrupt_state_key block (fields state)) s' e)
      ∙ ap metadata_at (lookup-insert_self interrupt_state_key block (fields state))
      ∙ block_round_trip step (p ∷ ps) h

  -- A state from which the interrupts have been taken out reads back as having none, and keeps
  -- every other field.
  pub interrupt_metadata-without :
      (state s' : State) (k : String)
      → without_interrupt_metadata state ≡ ok s'
      → k ≢ interrupt_state_key
      → (interrupt_metadata_from_state s' ≡ ok [])
        × (lookup k (fields s') ≡ lookup k (fields state))
  unfolding without_interrupt_metadata interrupt_metadata_from_state metadata_at
  interrupt_metadata-without state s' k e other =
      let kept = stored_fields (erase interrupt_state_key (fields state)) s' e in
      let gone : lookup interrupt_state_key (erase interrupt_state_key (fields state)) ≡ none =
        lookup-erase interrupt_state_key interrupt_state_key (fields state)
        ∙ ground (arith, key_eq_iff interrupt_state_key interrupt_state_key) in
      (
        ap (λ f. metadata_at (lookup interrupt_state_key f)) kept ∙ ap metadata_at gone,
        ap (lookup k) kept
            ∙ lookup-erase interrupt_state_key k (fields state)
            ∙ ground (arith, key_eq_iff interrupt_state_key k),
      )
