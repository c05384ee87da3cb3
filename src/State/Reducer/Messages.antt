-- ===== src/State/Reducer/Messages.antt =====
-- `applyAddMessages` against a reading without the index: an upsert by message id.
use langgraph_cpp.Prelude.{
  ℕ, zero, suc, ◌+◌, String, ◌≡◌, ◌≢◌, refl, sym, subst, ◌∙◌, ap, ◌⊎◌, inl, inr, true, Option, none,
  some, List, [], ◌∷◌, ◌++◌, ◌==◌, text_key, if◌then◌else◌, length, arith, Bool-cases, key_eq_iff,
}
use langgraph_cpp.Prelude.Map.{Map, lookup, insert, lookup-insert}
use langgraph_cpp.Json.{JsonLib}
use langgraph_cpp.State.{Services}
use langgraph_cpp.State.Reducer.{
  set, index_by_id, place_at, place_message, place_messages, merge_messages,
}

module _ ⦃J : JsonLib⦄ ⦃C : Services⦄ where
  -- The position of the last message with an id, counted from `index`, or else `found`.
  abbrev pub last_index : String → List C.Message → ℕ → Option ℕ → Option ℕ
  last_index id [] index found = found
  last_index id (m ∷ ms) index found =
      last_index id ms (suc index) (if C.message_id m == id then some index else found)

  abbrev pub upsert_at : C.Message → Option ℕ → List C.Message → List C.Message
  upsert_at m (some i) left = set left i m
  upsert_at m none left = left ++ m ∷ []

  -- Replace the last message with the same id; a message with no id, or a new one, goes to the end.
  abbrev pub upsert : C.Message → List C.Message → List C.Message
  upsert m left =
      if C.message_id m == ""
      then left ++ m ∷ []
      else upsert_at m (last_index (C.message_id m) left 0 none) left

  abbrev pub upsert_all : List C.Message → List C.Message → List C.Message
  upsert_all [] left = left
  upsert_all (m ∷ ms) left = upsert_all ms (upsert m left)

  -- The index that the loop keeps: where the last message with each id stands.
  abbrev Indexes : Map String ℕ → List C.Message → Type 0
  Indexes ids left = (id : String) → id ≢ "" → lookup id ids ≡ last_index id left 0 none

  index_by_id_lem :
      (left : List C.Message) (i : ℕ) (ids : Map String ℕ) (id : String)
      → id ≢ ""
      → lookup id (index_by_id left i ids) ≡ last_index id left i (lookup id ids)
  unfolding index_by_id
  index_by_id_lem [] i ids id h = refl
  index_by_id_lem (m ∷ ms) i ids id h = elim (Bool-cases (C.message_id m == "")) [
    | inl anonymous ↦ rw anonymous (
        index_by_id_lem ms (suc i) ids id h
        ∙ ap (last_index id ms (suc i))
            (ground (arith, key_eq_iff (C.message_id m) "", key_eq_iff (C.message_id m) id)))
    | inr named ↦ rw named (
        index_by_id_lem ms (suc i) (insert (C.message_id m) i ids) id h
        ∙ ap (last_index id ms (suc i)) (lookup-insert (C.message_id m) id i ids))
  ]

  last_index-append :
      (id : String) (left : List C.Message) (m : C.Message) (i : ℕ) (found : Option ℕ)
      → last_index id (left ++ m ∷ []) i found
        ≡ (if C.message_id m == id then some (i + length left) else last_index id left i found)
  last_index-append id [] m i found = ground arith
  last_index-append id (x ∷ xs) m i found =
      ground
        (arith, last_index-append id xs m (suc i) (if C.message_id x == id then some i else found))

  abbrev HasId : List C.Message → ℕ → String → Type 0
  HasId [] p id = ⊥
  HasId (x ∷ xs) zero id = C.message_id x ≡ id
  HasId (x ∷ xs) (suc p) id = HasId xs p id

  last_index-HasId :
      (id : String) (left : List C.Message) (i : ℕ) (found : Option ℕ) (q : ℕ)
      → last_index id left i found ≡ some q
      → (found ≡ some q) ⊎ ((p : ℕ) × (q ≡ i + p) × HasId left p id)
  last_index-HasId id [] i found q e = inl e
  last_index-HasId id (x ∷ xs) i found q e = elim (Bool-cases (C.message_id x == id)) [
    | inl here ↦ elim (last_index-HasId id xs (suc i) (some i) q (rw here at e)) [
      | inl same ↦ inr (0, ground arith, (key_eq_iff _ id).0 here)
      | inr (p, at, has) ↦ inr (suc p, omega arith, has)
    ]
    | inr there ↦ elim (last_index-HasId id xs (suc i) found q (rw there at e)) [
      | inl same ↦ inl same
      | inr (p, at, has) ↦ inr (suc p, omega arith, has)
    ]
  ]

  last_index-set :
      (id : String) (left : List C.Message) (p : ℕ) (m : C.Message) (i : ℕ) (found : Option ℕ)
      → HasId left p (C.message_id m)
      → last_index id (set left p m) i found ≡ last_index id left i found
  last_index-set id [] p m i found h = absurd h
  last_index-set id (x ∷ xs) zero m i found h = rw h refl
  last_index-set id (x ∷ xs) (suc p) m i found h =
      last_index-set id xs p m (suc i) (if C.message_id x == id then some i else found) h

  abbrev Placed : List C.Message → List C.Message × Map String ℕ → Type 0
  Placed left acc = (acc.0 ≡ left) × Indexes acc.1 acc.0

  place_at-Placed :
      (m : C.Message) (o : Option ℕ) (left : List C.Message) (ids : Map String ℕ)
      → C.message_id m ≢ ""
      → last_index (C.message_id m) left 0 none ≡ o
      → Indexes ids left
      → Placed (upsert_at m o left) (place_at m o (left, ids))
  place_at-Placed m none left ids n e h = (
    refl,
    λ id ne.
        lookup-insert (C.message_id m) id (length left) ids
        ∙ (ground (arith, h id ne) ∙ sym (last_index-append id left m 0 none)),
  )
  place_at-Placed m (some i) left ids n e h = (
    refl,
    λ id ne.
        h id ne
        ∙ sym (last_index-set id left i m 0 none (has (last_index-HasId _ left 0 none i e))),
  )
    where
      has :
          (none ≡ some i) ⊎ ((p : ℕ) × (i ≡ 0 + p) × HasId left p (C.message_id m))
          → HasId left i (C.message_id m)
      has (inl impossible) = cc
      has (inr (p, at, found)) = subst (λ q. HasId left q (C.message_id m)) (omega arith) found

  place_message-Placed :
      (m : C.Message) (left : List C.Message) (ids : Map String ℕ)
      → Indexes ids left
      → Placed (upsert m left) (place_message m (left, ids))
  unfolding place_message
  place_message-Placed m left ids h = elim (Bool-cases (C.message_id m == "")) [
    | inl anonymous ↦ rw anonymous (
      refl,
      λ id ne. h id ne ∙ sym (last_index-append id left m 0 none ∙ unnamed anonymous id ne),
    )
    | inr named ↦
        let n : C.message_id m ≢ "" = ground (arith, key_eq_iff (C.message_id m) "") in
        rw (named, h (C.message_id m) n) (place_at-Placed m _ left ids n refl h)
  ]
    where
      unnamed :
          (C.message_id m == "") ≡ true
          → (id : String) → id ≢ ""
          → (if C.message_id m == id then some (0 + length left) else last_index id left 0 none)
            ≡ last_index id left 0 none
      unnamed anonymous id ne =
          ground (arith, key_eq_iff (C.message_id m) "", key_eq_iff (C.message_id m) id)

  place_messages-upsert_all :
      (ms left : List C.Message) (acc : List C.Message × Map String ℕ)
      → Placed left acc
      → place_messages ms acc ≡ upsert_all ms left
  unfolding place_messages
  place_messages-upsert_all [] left acc h = h.0
  place_messages-upsert_all (m ∷ ms) left acc h =
      place_messages-upsert_all ms (upsert m left) (place_message m acc) (
        subst (λ l. Placed (upsert m l) (place_message m acc)) h.0
          (place_message-Placed m acc.0 acc.1 h.1))

  -- `applyAddMessages` merges as an upsert by id: each new message in turn replaces the last message
  -- with its id where it stands, and goes to the end if it has no id or a new one.
  pub merge_messages-upsert_all :
      (left right : List C.Message) → merge_messages left right ≡ upsert_all right left
  unfolding merge_messages lookup
  merge_messages-upsert_all left right =
      place_messages-upsert_all right left (left, index_by_id left 0 [])
        (refl, λ id ne. index_by_id_lem left 0 [] id ne)
