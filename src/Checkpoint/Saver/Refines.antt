-- ===== src/Checkpoint/Saver/Refines.antt =====
-- The saver in memory against what a client may rely on: a checkpoint, or none, under each thread,
-- namespace and id.
use langgraph_cpp.Prelude.{
  String, ◌≡◌, refl, sym, ap, ◌∙◌, subst, Bool, true, false, Option, none, some, List, [], ◌∷◌,
  Result, ok, err, Status, ◌==◌, text_key, if◌then◌else◌, not, ◌&&◌, any, has_value, arith, find_if,
  any-find_if,
}
use mathlib.Core.Path.{fun_ext}
use langgraph_cpp.Prelude.Map.{lookup, lookup-erase}
use langgraph_cpp.Json.{JsonLib}
use langgraph_cpp.Checkpoint.Types.{
  Checkpoint, CheckpointWriteSet, validate_checkpoint_for_store, query_at,
}
use langgraph_cpp.Checkpoint.Saver.{
  InMemorySaver, new_saver, history, history_of, same_id, put, put_writes, find_checkpoint,
  delete_thread,
}
use langgraph_cpp.Checkpoint.Saver.Lookup.{
  IsHistory, IsValid, new_saver-IsValid, put-IsValid, find_checkpoint-put, checkpoints-put_writes,
}

module _ ⦃J : JsonLib⦄ where
  -- A client's call.
  pub data Call : Type 0 where
    put_call : Checkpoint → Call
    put_writes_call : CheckpointWriteSet → Call
    delete_call : String → Call

  -- A call that is refused changes nothing.
  abbrev or_same : InMemorySaver → Result InMemorySaver → InMemorySaver
  or_same s (ok t) = t
  or_same s (err e) = s

  unfoldable pub perform : Call → InMemorySaver → InMemorySaver
  perform (put_call c) s = or_same s (put c s)
  perform (put_writes_call set) s = or_same s (put_writes set s)
  perform (delete_call thread) s = delete_thread thread s

  unfoldable pub perform_all : List Call → InMemorySaver → InMemorySaver
  perform_all [] s = s
  perform_all (c ∷ cs) s = perform_all cs (perform c s)

  abbrev pub Contents : Type 0
  Contents = String → String → String → Option Checkpoint

  unfoldable pub contents : InMemorySaver → Contents
  contents s thread ns id = find_checkpoint (query_at thread id ns) (history s thread)

  abbrev pub is_named : Checkpoint → Bool
  is_named c = not (c.thread_id == "") && not (c.checkpoint_id == "")

  abbrev is_at : String → String → String → Checkpoint → Bool
  is_at thread ns id c = c.thread_id == thread && same_id ns id c

  -- The calls on the contents: a checkpoint is added where there is none of its name.
  unfoldable pub perform_on : Call → Contents → Contents
  perform_on (put_call c) v thread ns id =
      if is_named c && not (has_value (v c.thread_id c.checkpoint_namespace c.checkpoint_id))
      then (if is_at thread ns id c then some c else v thread ns id)
      else v thread ns id
  perform_on (put_writes_call set) v thread ns id = v thread ns id
  perform_on (delete_call gone) v thread ns id = if gone == thread then none else v thread ns id

  unfoldable pub perform_all_on : List Call → Contents → Contents
  perform_all_on [] v = v
  perform_all_on (c ∷ cs) v = perform_all_on cs (perform_on c v)

  pub put-err :
      (c : Checkpoint) (s : InMemorySaver) (e : Status)
      → put c s ≡ err e
      → is_named c
          && not (any (same_id c.checkpoint_namespace c.checkpoint_id) (history s c.thread_id))
        ≡ false
  unfolding put validate_checkpoint_for_store
  put-err c s e h = ground arith

  put-ok :
      (c : Checkpoint) (s t : InMemorySaver)
      → put c s ≡ ok t
      → is_named c
          && not (any (same_id c.checkpoint_namespace c.checkpoint_id) (history s c.thread_id))
        ≡ true
  unfolding put validate_checkpoint_for_store
  put-ok c s t h = ground arith

  pub held :
      (c : Checkpoint) (s : InMemorySaver)
      → any (same_id c.checkpoint_namespace c.checkpoint_id) (history s c.thread_id)
        ≡ has_value (contents s c.thread_id c.checkpoint_namespace c.checkpoint_id)
  unfolding contents find_checkpoint query_at
  held c s = any-find_if (same_id c.checkpoint_namespace c.checkpoint_id) (history s c.thread_id)

  put-refines :
      (c : Checkpoint) (s : InMemorySaver) (res : Result InMemorySaver) (thread ns id : String)
      → IsValid s
      → put c s ≡ res
      → contents (or_same s res) thread ns id ≡ perform_on (put_call c) (contents s) thread ns id
  unfolding perform_on contents
  put-refines c s (ok t) thread ns id v e =
      find_checkpoint-put c s t thread ns id v e ∙ ground (arith, put-ok c s t e, held c s)
  put-refines c s (err x) thread ns id v e = ground (arith, put-err c s x e, held c s)

  delete-refines :
      (gone : String) (s : InMemorySaver) (thread ns id : String)
      → contents (delete_thread gone s) thread ns id
        ≡ perform_on (delete_call gone) (contents s) thread ns id
  unfolding perform_on contents delete_thread find_checkpoint query_at find_if
  delete-refines gone s thread ns id =
      ap (λ o. find_if (same_id ns id) (history_of o)) (lookup-erase gone thread s.checkpoints)
      ∙ ground arith

  put_writes-refines :
      (set : CheckpointWriteSet) (s : InMemorySaver) (res : Result InMemorySaver)
      → put_writes set s ≡ res
      → s.checkpoints ≡ (or_same s res).checkpoints
  put_writes-refines set s (ok t) e = checkpoints-put_writes set s t e
  put_writes-refines set s (err x) e = refl

  IsValid-same : (s t : InMemorySaver) → s.checkpoints ≡ t.checkpoints → IsValid s → IsValid t
  IsValid-same s t e v thread = subst (λ k. IsHistory (history_of (lookup thread k))) e (v thread)

  left-IsHistory :
      (b : Bool) (o : Option (List Checkpoint))
      → IsHistory (history_of o)
      → IsHistory (history_of (if b then none else o))
  left-IsHistory true o h = (tt, λ ns id. tt)
  left-IsHistory false o h = h

  delete-IsValid : (gone : String) (s : InMemorySaver) → IsValid s → IsValid (delete_thread gone s)
  unfolding delete_thread
  delete-IsValid gone s v thread =
      subst (λ o. IsHistory (history_of o)) (sym (lookup-erase gone thread s.checkpoints))
        (left-IsHistory (gone == thread) (lookup thread s.checkpoints) (v thread))

  or_same-IsValid :
      (c : Checkpoint) (s : InMemorySaver) (res : Result InMemorySaver)
      → IsValid s
      → put c s ≡ res
      → IsValid (or_same s res)
  or_same-IsValid c s (ok t) v e = put-IsValid c s t v e
  or_same-IsValid c s (err x) v e = v

  perform-IsValid : (call : Call) (s : InMemorySaver) → IsValid s → IsValid (perform call s)
  unfolding perform
  perform-IsValid (put_call c) s v = or_same-IsValid c s (put c s) v refl
  perform-IsValid (put_writes_call set) s v =
      IsValid-same s (or_same s (put_writes set s)) (put_writes-refines set s _ refl) v
  perform-IsValid (delete_call gone) s v = delete-IsValid gone s v

  perform-refines :
      (call : Call) (s : InMemorySaver)
      → IsValid s
      → contents (perform call s) ≡ perform_on call (contents s)
  unfolding perform perform_on contents
  perform-refines (put_call c) s v =
      fun_ext λ thread. fun_ext λ ns. fun_ext λ id. put-refines c s (put c s) thread ns id v refl
  perform-refines (put_writes_call set) s v = fun_ext λ thread. fun_ext λ ns. fun_ext λ id.
      ap (λ k. find_checkpoint (query_at thread id ns) (history_of (lookup thread k)))
        (sym (put_writes-refines set s (put_writes set s) refl))
  perform-refines (delete_call gone) s v =
      fun_ext λ thread. fun_ext λ ns. fun_ext λ id. delete-refines gone s thread ns id

  all-refines :
      (calls : List Call) (s : InMemorySaver)
      → IsValid s
      → IsValid (perform_all calls s)
        × (contents (perform_all calls s) ≡ perform_all_on calls (contents s))
  unfolding perform_all perform_all_on
  all-refines [] s v = (v, refl)
  all-refines (c ∷ cs) s v =
      let (valid, same) = all-refines cs (perform c s) (perform-IsValid c s v) in
      (valid, same ∙ ap (perform_all_on cs) (perform-refines c s v))

  -- Whatever calls a client makes of a new saver, puts, writes and deletions, some of them refused,
  -- the saver stays valid and answers as the contents do on which the same calls are made.
  pub perform_all-refines :
      (calls : List Call)
      → IsValid (perform_all calls new_saver)
        × (contents (perform_all calls new_saver) ≡ perform_all_on calls (contents new_saver))
  perform_all-refines calls = all-refines calls new_saver new_saver-IsValid
