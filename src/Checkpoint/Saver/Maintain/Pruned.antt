-- ===== src/Checkpoint/Saver/Maintain/Pruned.antt =====
-- What `prune` keeps.
use langgraph_cpp.Prelude.{
  ℕ, zero, suc, ◌-◌, ◌≡◌, refl, sym, ap, ◌∙◌, subst, String, Bool, false, some, List, [], ◌∷◌, ◌==◌,
  text_key, if◌then◌else◌, not, ◌&&◌, length, keep, any, take, drop, add_to_set, member_of,
  member_of-add_to_set, Bool-cases, inl, inr, arith, key_eq_iff, AtMostOne,
}
use langgraph_cpp.Prelude.Map.{lookup, lookup-insert}
use langgraph_cpp.Json.{JsonLib}
use langgraph_cpp.Checkpoint.Types.{Checkpoint}
use langgraph_cpp.Checkpoint.Saver.{InMemorySaver, history, history_of, same_id, comes_before}
use langgraph_cpp.Checkpoint.Saver.Lookup.{IsHistory, IsValid}
use langgraph_cpp.Checkpoint.Saver.Maintain.{
  CheckpointPruneOptions, in_namespace, id_set, to_remove, is_removed, pruned, prune,
}

module _ {ℓ} {A : Type ℓ} (p q : A → Bool) where
  keep-keep : (xs : List A) → keep p (keep q xs) ≡ keep (λ x. p x && q x) xs
  unfolding keep
  keep-keep [] = refl
  keep-keep (x ∷ xs) = ground (arith, keep-keep xs)

  keep-ext : (xs : List A) → ((x : A) → p x ≡ q x) → keep p xs ≡ keep q xs
  unfolding keep
  keep-ext [] h = refl
  keep-ext (x ∷ xs) h = ground (arith, h x, keep-ext xs h)

module _ ⦃J : JsonLib⦄ where
  abbrev has_id : String → Checkpoint → Bool
  has_id id c = c.checkpoint_id == id

  -- No id is there twice.
  abbrev IsDistinct : List Checkpoint → Type 0
  IsDistinct [] = Unit
  IsDistinct (c ∷ cs) = (any (has_id c.checkpoint_id) cs ≡ false) × IsDistinct cs

  abbrev stays : List String → Checkpoint → Bool
  stays ids c = not (member_of c.checkpoint_id ids)

  stays-add :
      (id : String) (ids : List String) (cs : List Checkpoint)
      → any (has_id id) cs ≡ false
      → keep (stays (add_to_set id ids)) cs ≡ keep (stays ids) cs
  unfolding keep any
  stays-add id ids [] h = refl
  stays-add id ids (c ∷ cs) h = ground (
    arith,
    member_of-add_to_set id c.checkpoint_id ids,
    stays-add id ids cs,
    key_eq_iff c.checkpoint_id id,
    key_eq_iff id c.checkpoint_id,
  )

  stays-nothing : (cs : List Checkpoint) → keep (stays []) cs ≡ cs
  unfolding keep any
  stays-nothing [] = refl
  stays-nothing (c ∷ cs) = ap (λ ds. c ∷ ds) (stays-nothing cs)

  keep-taken :
      (n : ℕ) (cs : List Checkpoint)
      → IsDistinct cs
      → keep (stays (id_set (take n cs))) cs ≡ drop n cs
  unfolding take drop id_set keep
  keep-taken zero cs d = stays-nothing cs
  keep-taken (suc n) [] d = refl
  keep-taken (suc n) (c ∷ cs) d = ground (
    arith,
    member_of-add_to_set c.checkpoint_id c.checkpoint_id (id_set (take n cs)),
    key_eq_iff c.checkpoint_id c.checkpoint_id,
    stays-add c.checkpoint_id (id_set (take n cs)) cs d.0,
    keep-taken n cs d.1,
  )

  any-own :
      (ns id : String) (cs : List Checkpoint)
      → any (has_id id) (keep (in_namespace ns) cs) ≡ any (same_id ns id) cs
  unfolding any keep
  any-own ns id [] = refl
  any-own ns id (c ∷ cs) = ground (arith, any-own ns id cs)

  -- The ids in one namespace of a history differ.
  own-IsDistinct :
      (ns : String) (cs : List Checkpoint)
      → ((id : String) → AtMostOne comes_before (same_id ns id) cs)
      → IsDistinct (keep (in_namespace ns) cs)
  unfolding keep
  own-IsDistinct ns [] h = tt
  own-IsDistinct ns (c ∷ cs) h = elim (Bool-cases (in_namespace ns c)) [
    | inl mine ↦
        rw (mine, keep)
          (
            any-own ns c.checkpoint_id cs
                ∙ ground (arith, (h c.checkpoint_id).0, key_eq_iff c.checkpoint_id c.checkpoint_id),
            own-IsDistinct ns cs (λ id. (h id).1),
          )
    | inr other ↦ rw (other, keep) (own-IsDistinct ns cs (λ id. (h id).1))
  ]

  pruned-own :
      (ns : String) (n : ℕ) (cs : List Checkpoint)
      → ((id : String) → AtMostOne comes_before (same_id ns id) cs)
      → keep (in_namespace ns) (pruned ns n cs)
        ≡ drop (length (keep (in_namespace ns) cs) - n) (keep (in_namespace ns) cs)
  unfolding pruned to_remove
  pruned-own ns n cs h =
      let own = keep (in_namespace ns) cs in
      let k = length own - n in
      keep-keep (in_namespace ns) (λ c. not (is_removed ns (id_set (take k own)) c)) cs
      ∙ keep-ext _ (λ c. stays (id_set (take k own)) c && in_namespace ns c) cs (λ c. ground arith)
      ∙ sym (keep-keep (stays (id_set (take k own))) (in_namespace ns) cs)
      ∙ keep-taken k own (own-IsDistinct ns cs h)

  pruned-others :
      (ns : String) (n : ℕ) (cs : List Checkpoint)
      → keep (λ c. not (in_namespace ns c)) (pruned ns n cs)
        ≡ keep (λ c. not (in_namespace ns c)) cs
  unfolding pruned
  pruned-others ns n cs =
      keep-keep _ _ cs ∙ keep-ext _ (λ c. not (in_namespace ns c)) cs (λ c. ground arith)

  -- A thread that is there is left with the pruned history, and no other thread changes.
  history-prune :
      (thread : String) (o : CheckpointPruneOptions) (s : InMemorySaver) (cs : List Checkpoint)
      (other : String)
      → lookup thread s.checkpoints ≡ some cs
      → history (prune thread o s).0 other ≡ (
          if thread == other
          then pruned o.checkpoint_namespace o.keep_latest cs
          else history s other)
  unfolding prune
  history-prune thread o s cs other e =
      rw (e, prune)
        (ap history_of (
            lookup-insert thread other (pruned o.checkpoint_namespace o.keep_latest cs)
              s.checkpoints)
          ∙ ground arith)

  -- Pruning a thread that a valid saver holds leaves exactly the latest checkpoints of the
  -- namespace, as many as asked for, leaves the thread's checkpoints of other namespaces, and leaves
  -- the other threads.
  pub prune-latest :
      (thread other : String) (o : CheckpointPruneOptions) (s : InMemorySaver)
      (cs : List Checkpoint)
      → IsValid s
      → lookup thread s.checkpoints ≡ some cs
      → (thread == other) ≡ false
      → (keep (in_namespace o.checkpoint_namespace) (history (prune thread o s).0 thread)
          ≡ drop
              (length (keep (in_namespace o.checkpoint_namespace) cs) - o.keep_latest)
              (keep (in_namespace o.checkpoint_namespace) cs))
        × (keep
              (λ c. not (in_namespace o.checkpoint_namespace c))
              (history (prune thread o s).0 thread)
            ≡ keep (λ c. not (in_namespace o.checkpoint_namespace c)) cs)
        × (history (prune thread o s).0 other ≡ history s other)
  prune-latest thread other o s cs v e apart =
      let now : history (prune thread o s).0 thread
          ≡ pruned o.checkpoint_namespace o.keep_latest cs =
        history-prune thread o s cs thread e ∙ ground (arith, key_eq_iff thread thread) in
      let distinct = subst (λ o. IsHistory (history_of o)) e (v thread) in
      (
        ap (keep (in_namespace o.checkpoint_namespace)) now
            ∙ pruned-own o.checkpoint_namespace o.keep_latest cs
                (λ id. distinct.1 o.checkpoint_namespace id),
        ap (keep (λ c. not (in_namespace o.checkpoint_namespace c))) now
            ∙ pruned-others o.checkpoint_namespace o.keep_latest cs,
        history-prune thread o s cs other e ∙ ground (arith, apart),
      )
