-- ===== src/Tests/PlainSaver.antt =====
-- A saver on a memory storage, whose codec knows the checkpoints of one thread.
use langgraph_cpp.Prelude.{
  ◌*◌, ◌/◌, ℕ, String, Bool, true, false, ◌&&◌, Option, none, some, List, [], ◌∷◌, Result, ok, fail,
  ◌≡◌, refl, sym, ap, ◌∙◌, ok-injective, ◌==◌, text_key, nat_key, key_eq_iff, if◌then◌else◌,
  invalid_argument, is_empty, has_value, not,
}
use langgraph_cpp.Checkpoint.Types.{Checkpoint}
use langgraph_cpp.Checkpoint.Payload.{
  JsonText, CheckpointCodec, Payload, payload_json, storage_value_from_payload,
}
use langgraph_cpp.Checkpoint.StorageSaver.{StorageSaver}
use langgraph_cpp.Checkpoint.StorageSaver.Memory.{SaverInputs, IsReadable, memory_calls}
use langgraph_cpp.Storage.Memory.{MemoryStorage}
use langgraph_cpp.Storage.{StorageKey, StorageLimits, storage_key}
use langgraph_cpp.Tests.Examples.{
  Tree, Members, tree_json, t_null, t_boolean, t_unsigned, t_text, t_array, t_object, t_other,
  no_members, a_member,
}

abbrev plain_type : String
plain_type = "application/plain"

-- The text of a payload of the one type is its data, behind a mark.
abbrev dump_members : Members → String
dump_members (a_member a (t_text kind) (a_member b (t_text body) no_members)) =
    if kind == plain_type then String.◌∷◌ "1" body else ""
dump_members _ = ""

abbrev dump_tree : Tree → String
dump_tree (t_object ms) = dump_members ms
dump_tree _ = ""

abbrev parse_tree : String → Result Tree
parse_tree String.[] = fail invalid_argument "not a payload"
parse_tree (String.◌∷◌ c s) =
    ok (payload_json (record { content_type = plain_type; data_text = s }))

abbrev pub plain_texts : JsonText
plain_texts = record { dump = dump_tree; parse = parse_tree }

plain_texts-reads :
    (p : Payload) (k : Tree) → parse_tree (dump_tree (payload_json p)) ≡ ok k → payload_json p ≡ k
plain_texts-reads p k e = by_kind (p.content_type == plain_type) p.content_type p.data_text refl e
  where
    by_kind :
        (b : Bool) (kind body : String)
        → (kind == plain_type) ≡ b
        → parse_tree (if b then String.◌∷◌ "1" body else "") ≡ ok k
        → payload_json (record { content_type = kind; data_text = body }) ≡ k
    by_kind true kind body h e =
        ap (λ a. payload_json (record { content_type = a; data_text = body }))
          ((key_eq_iff kind plain_type).0 h)
        ∙ ok-injective e
    by_kind false kind body h e = cc

abbrev pub plain : String → Checkpoint
plain id = record {
  thread_id = "t";
  checkpoint_id = id;
  checkpoint_namespace = "";
  parent_checkpoint_id = none;
  step = 1;
  state = t_null;
  next_nodes = [];
  next_tasks = [];
  writes = [];
  pending_writes = [];
  channel_versions = t_null;
  versions_seen = t_null;
  updated_channels = [];
  metadata = t_null;
  created_at = 7004;
}

abbrev is_t_null : Tree → Bool
is_t_null t_null = true
is_t_null _ = false

t_null_of : (t : Tree) → is_t_null t ≡ true → t_null ≡ t
t_null_of t_null h = refl
t_null_of (t_boolean b) h = cc
t_null_of (t_unsigned n) h = cc
t_null_of (t_text s) h = cc
t_null_of (t_array ts) h = cc
t_null_of (t_object ms) h = cc
t_null_of (t_other n) h = cc

nil_of : {A : Type 0} (xs : List A) → is_empty xs ≡ true → [] ≡ xs
nil_of [] h = refl
nil_of (x ∷ xs) h = cc

none_of : {A : Type 0} (x : Option A) → not (has_value x) ≡ true → none ≡ x
none_of none h = refl
none_of (some x) h = cc

abbrev are_null : Checkpoint → Bool
are_null c =
    is_t_null c.state
    && (is_t_null c.channel_versions && (is_t_null c.versions_seen && is_t_null c.metadata))

abbrev are_empty : Checkpoint → Bool
are_empty c =
    is_empty c.next_nodes
    && (is_empty c.next_tasks
        && (is_empty c.writes && (is_empty c.pending_writes && is_empty c.updated_channels)))

abbrev is_plain : Checkpoint → Bool
is_plain c =
    (c.thread_id == "t"
      && (c.checkpoint_namespace == ""
          && (c.step == 1 && (c.created_at == 7004 && not (has_value c.parent_checkpoint_id)))))
    && (are_null c && are_empty c)

and_parts : (a b : Bool) → a && b ≡ true → (a ≡ true) × (b ≡ true)
and_parts true true h = (refl, refl)
and_parts true false h = cc
and_parts false b h = cc

plain_of : (c : Checkpoint) → is_plain c ≡ true → plain c.checkpoint_id ≡ c
plain_of c h =
    let (h0, h1) = and_parts _ _ h in
    let (thread, h2) = and_parts _ _ h0 in
    let (ns, h3) = and_parts _ _ h2 in
    let (step, h4) = and_parts _ _ h3 in
    let (time, parent) = and_parts _ _ h4 in
    let (h5, h6) = and_parts _ _ h1 in
    let (state, h7) = and_parts _ _ h5 in
    let (versions, h8) = and_parts _ _ h7 in
    let (seen, meta) = and_parts _ _ h8 in
    let (nodes, h9) = and_parts _ _ h6 in
    let (tasks, h10) = and_parts _ _ h9 in
    let (ws, h11) = and_parts _ _ h10 in
    let (pending, channels) = and_parts _ _ h11 in
    λ i. record {
      thread_id = sym ((key_eq_iff c.thread_id "t").0 thread) i;
      checkpoint_id = c.checkpoint_id;
      checkpoint_namespace = sym ((key_eq_iff c.checkpoint_namespace "").0 ns) i;
      parent_checkpoint_id = none_of c.parent_checkpoint_id parent i;
      step = sym ((key_eq_iff c.step 1).0 step) i;
      state = t_null_of c.state state i;
      next_nodes = nil_of c.next_nodes nodes i;
      next_tasks = nil_of c.next_tasks tasks i;
      writes = nil_of c.writes ws i;
      pending_writes = nil_of c.pending_writes pending i;
      channel_versions = t_null_of c.channel_versions versions i;
      versions_seen = t_null_of c.versions_seen seen i;
      updated_channels = nil_of c.updated_channels channels i;
      metadata = t_null_of c.metadata meta i;
      created_at = sym ((key_eq_iff c.created_at 7004).0 time) i;
    }

-- The codec keeps a moment of creation in thousands of ticks.
abbrev pub in_thousands : Checkpoint → Checkpoint
in_thousands c = record c { created_at = c.created_at / 1000 * 1000 }

abbrev pub plain_codec : CheckpointCodec
plain_codec = record {
  encode = λ c.
      if is_plain c
      then ok (record { content_type = plain_type; data_text = c.checkpoint_id })
      else fail invalid_argument "not a plain checkpoint";
  decode = λ p. ok (in_thousands (plain p.data_text));
  encode_write = λ w. fail invalid_argument "no writes";
  decode_write = λ p. fail invalid_argument "no writes";
}

plain_codec-decodes :
    (c d : Checkpoint) (p : Payload)
    → plain_codec.encode c ≡ ok p
    → plain_codec.decode p ≡ ok d
    → in_thousands c ≡ d
plain_codec-decodes c d p e decoded = by_test (is_plain c) refl e
  where
    by_test :
        (b : Bool)
        → is_plain c ≡ b
        → (if b
            then ok (record { content_type = plain_type; data_text = c.checkpoint_id })
            else fail invalid_argument "not a plain checkpoint")
          ≡ ok p
        → in_thousands c ≡ d
    by_test true h e =
        ap in_thousands (sym (plain_of c h))
        ∙ ap (λ q. in_thousands (plain q.data_text)) (ok-injective e)
        ∙ ok-injective decoded
    by_test false h e = cc

abbrev pub clock : StorageKey → ℕ
clock k = 7

abbrev pub plain_saver : StorageSaver MemoryStorage
plain_saver = record {
  storage = memory_calls clock;
  has_storage = true;
  codec = plain_codec;
  has_codec = true;
  texts = plain_texts;
  scope = "checkpoints";
  list_page_size = 2;
  rounds = 4;
}

pub plain_laws : SaverInputs plain_texts plain_codec in_thousands
plain_laws = record { parse-dump = plain_texts-reads; decode-encode = plain_codec-decodes }

abbrev pub sizes : StorageLimits
sizes = record {
  max_scope_bytes = 64;
  max_key_bytes = 256;
  max_value_bytes = 1024;
  max_list_items = 8;
  max_items = 100;
}

pub readable : (c : Checkpoint) → IsReadable plain_texts plain_codec c
unfolding storage_value_from_payload
readable c p value e written = by_test (is_plain c) e
  where
    by_payload :
        (p : Payload) (body : String)
        → record { content_type = plain_type; data_text = body } ≡ p
        → storage_value_from_payload plain_texts p ≡ ok value
        → (k : Tree) × (d : Checkpoint) × (parse_tree value ≡ ok k) × (plain_codec.decode p ≡ ok d)
    by_payload p body same written = (
      payload_json (record { content_type = plain_type; data_text = body }),
      in_thousands (plain p.data_text),
      ap parse_tree
          (sym (ok-injective (ap (storage_value_from_payload plain_texts) same ∙ written))),
      refl,
    )

    by_test :
        (b : Bool)
        → (if b
            then ok (record { content_type = plain_type; data_text = c.checkpoint_id })
            else fail invalid_argument "not a plain checkpoint")
          ≡ ok p
        → (k : Tree) × (d : Checkpoint) × (parse_tree value ≡ ok k) × (plain_codec.decode p ≡ ok d)
    by_test true e = by_payload p c.checkpoint_id (ok-injective e) written
    by_test false e = cc
