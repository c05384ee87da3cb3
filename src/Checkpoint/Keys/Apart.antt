-- ===== src/Checkpoint/Keys/Apart.antt =====
-- No two checkpoints share a key, and no checkpoint's key is one of a pointer or of writes.
use Prim.Native.Char.{Char}
use Prim.Native.String.{◌++◌}
use text.Mathlib.TextLemmas.{cons-append, nil-append, append-nil, append_assoc, append_cancel_left}
use langgraph_cpp.Prelude.{
  String, ◌≡◌, refl, sym, ap, ◌∙◌, subst, true, false, ok, ◌==◌, text_key, if◌then◌else◌,
  Bool-cases, fail_if-eq-ok, ok-injective, invalid_argument, inl, inr, key_eq_iff, arith,
}
use langgraph_cpp.Storage.{StorageKey}
use langgraph_cpp.Checkpoint.Hex.{hex_encode}
use langgraph_cpp.Checkpoint.Hex.Injective.{NotHex, hex_encode-injective}
use langgraph_cpp.Checkpoint.Keys.{
  namespace_part, key_prefix_for, key_for, latest_pointer_key_for, write_key_prefix_for,
}

-- A text that a given character begins.
slash : (x : String) → "/" ++ x ≡ String.◌∷◌ "/" x
slash x = cons-append "/" "" x ∙ ap (λ r. String.◌∷◌ "/" r) (nil-append x)

begins_n : (x : String) → "ns/" ++ x ≡ String.◌∷◌ "n" ("s/" ++ x)
begins_n x = cons-append "n" "s/" x

NotHex-slash : (x : String) → NotHex ("/" ++ x)
NotHex-slash x = subst NotHex (sym (slash x)) refl

NotHex-n : (x : String) → NotHex ("ns/" ++ x)
NotHex-n x = subst NotHex (sym (begins_n x)) refl

hex_encode_empty : hex_encode "" ≡ ""
unfolding hex_encode
hex_encode_empty = refl

-- A code alone.
alone : (s t : String) → hex_encode s ≡ hex_encode t → s ≡ t
alone s t e =
    (hex_encode-injective s t "" ""
      (append-nil (hex_encode s) ∙ e ∙ sym (append-nil (hex_encode t))) tt tt).0

-- A code that begins with no digit is that of the empty text.
empty_of_NotHex : (s x y : String) → hex_encode s ++ x ≡ y → NotHex x → NotHex y → s ≡ ""
empty_of_NotHex s x y e p q =
    (hex_encode-injective s "" x y (e ∙ sym (ap (λ w. w ++ y) hex_encode_empty ∙ nil-append y)) p
      q).0

behind_slash :
    (s t x y : String) → hex_encode s ++ ("/" ++ x) ≡ hex_encode t ++ ("/" ++ y) → (s ≡ t) × (x ≡ y)
behind_slash s t x y e =
    let (same, rest) =
      hex_encode-injective s t ("/" ++ x) ("/" ++ y) e (NotHex-slash x) (NotHex-slash y) in
    (same, append_cancel_left "/" x y rest)

-- What stands behind the thread.
abbrev pub tail_of : String → String → String
tail_of ns id = namespace_part ns ++ hex_encode id

pub key_text-parts :
    (thread ns id : String) (k : StorageKey) (scope : String)
    → key_for scope thread ns id ≡ ok k
    → ((thread == "") ≡ false)
      × ((id == "") ≡ false)
      × (k.scope ≡ scope)
      × (k.key ≡ hex_encode thread ++ ("/" ++ tail_of ns id))
unfolding key_for key_prefix_for
key_text-parts thread ns id k scope e = ground (
  arith,
  append_assoc (hex_encode thread) ("/" ++ namespace_part ns) (hex_encode id),
  append_assoc "/" (namespace_part ns) (hex_encode id),
)

tail_of-root : (ns id : String) → (ns == "") ≡ true → tail_of ns id ≡ hex_encode id
tail_of-root ns id h = rw (h) (nil-append (hex_encode id))

tail_of-named :
    (ns id : String)
    → (ns == "") ≡ false
    → tail_of ns id ≡ "ns/" ++ (hex_encode ns ++ ("/" ++ hex_encode id))
tail_of-named ns id h = rw (h) (
    append_assoc "ns/" (hex_encode ns ++ "/") (hex_encode id)
    ∙ ap (λ w. "ns/" ++ w) (append_assoc (hex_encode ns) "/" (hex_encode id)))

-- The root and a namespace are never taken for one another.
root_or_named : (ns id x y : String) → (id == "") ≡ false → hex_encode id ≡ "ns/" ++ x → ⊥
root_or_named ns id x y h e =
    let blank : id ≡ "" =
      empty_of_NotHex id "" ("ns/" ++ x) (append-nil (hex_encode id) ∙ e) tt (NotHex-n x) in
    not_blank id h blank
  where
    not_blank : (s : String) → (s == "") ≡ false → s ≡ "" → ⊥
    not_blank s h e = ground (arith, key_eq_iff s "")

tail_of-injective :
    (ns ns' id id' : String)
    → (id == "") ≡ false
    → (id' == "") ≡ false
    → tail_of ns id ≡ tail_of ns' id'
    → (ns ≡ ns') × (id ≡ id')
tail_of-injective ns ns' id id' h h' e = elim (Bool-cases (ns == "")) [
  | inl root ↦ elim (Bool-cases (ns' == "")) [
    | inl root' ↦ (
      (key_eq_iff ns "").0 root ∙ sym ((key_eq_iff ns' "").0 root'),
      alone id id' (sym (tail_of-root ns id root) ∙ e ∙ tail_of-root ns' id' root'),
    )
    | inr named' ↦ absurd (
        root_or_named ns id _ "" h
          (sym (tail_of-root ns id root) ∙ e ∙ tail_of-named ns' id' named'))
  ]
  | inr named ↦ elim (Bool-cases (ns' == "")) [
    | inl root' ↦ absurd (
        root_or_named ns' id' _ "" h'
          (sym (tail_of-root ns' id' root') ∙ sym e ∙ tail_of-named ns id named))
    | inr named' ↦
        let (same, rest) = behind_slash ns ns' (hex_encode id) (hex_encode id') (
          append_cancel_left "ns/" _ _
            (sym (tail_of-named ns id named) ∙ e ∙ tail_of-named ns' id' named')) in
        (same, alone id id' rest)
  ]
]

-- Two checkpoints with one key have the same thread, namespace and id.
pub key_for-injective :
    (scope thread thread' ns ns' id id' : String) (k : StorageKey)
    → key_for scope thread ns id ≡ ok k
    → key_for scope thread' ns' id' ≡ ok k
    → (thread ≡ thread') × (ns ≡ ns') × (id ≡ id')
key_for-injective scope thread thread' ns ns' id id' k e e' =
    let (_, named, _, text) = key_text-parts thread ns id k scope e in
    let (_, named', _, text') = key_text-parts thread' ns' id' k scope e' in
    let (same, rest) =
      behind_slash thread thread' (tail_of ns id) (tail_of ns' id') (sym text ∙ text') in
    let (spaces, ids) = tail_of-injective ns ns' id id' named named' rest in (same, spaces, ids)

starts_with_no_digit :
    (scope thread ns id : String) (k : StorageKey) (y : String)
    → key_for scope thread ns id ≡ ok k
    → NotHex y
    → k.key ≡ y
    → ⊥
starts_with_no_digit scope thread ns id k y e n h =
    let (named, _, _, text) = key_text-parts thread ns id k scope e in
    let blank : thread ≡ "" =
      empty_of_NotHex thread ("/" ++ tail_of ns id) y (sym text ∙ h) (NotHex-slash (tail_of ns id))
        n in
    contradiction thread named blank
  where
    contradiction : (s : String) → (s == "") ≡ false → s ≡ "" → ⊥
    contradiction s h e = ground (arith, key_eq_iff s "")

-- What is written in two parts, after a first character.
three_parts :
    (c : Char) (s t u : String) → (String.◌∷◌ c s ++ t) ++ u ≡ String.◌∷◌ c ((s ++ t) ++ u)
three_parts c s t u = ap (λ w. w ++ u) (cons-append c s t) ∙ cons-append c (s ++ t) u

pointer_text :
    (scope thread ns : String) (k : StorageKey)
    → latest_pointer_key_for scope thread ns ≡ ok k
    → (rest : String) × (k.key ≡ String.◌∷◌ "l" rest)
unfolding latest_pointer_key_for
pointer_text scope thread ns k e =
    let (_, made) = fail_if-eq-ok (thread == "") invalid_argument _ _ e in
    let more = if ns == "" then "" else "/ns/" ++ hex_encode ns in
    (
      ("atest/" ++ hex_encode thread) ++ more,
      sym (ap (λ x. x.key) (ok-injective made)) ∙ three_parts "l" "atest/" (hex_encode thread) more,
    )

-- The key of a pointer is no checkpoint's.
pub pointer-ne-key :
    (scope thread thread' ns ns' id : String) (k : StorageKey)
    → latest_pointer_key_for scope thread ns ≡ ok k
    → key_for scope thread' ns' id ≡ ok k
    → ⊥
pointer-ne-key scope thread thread' ns ns' id k p e =
    let (rest, text) = pointer_text scope thread ns k p in
    starts_with_no_digit scope thread' ns' id k (String.◌∷◌ "l" rest) e refl text

-- The keys of writes begin otherwise than those of checkpoints.
pub writes-ne-key :
    (scope thread thread' ns ns' id id' prefix rest : String) (k : StorageKey)
    → write_key_prefix_for thread ns id ≡ ok prefix
    → key_for scope thread' ns' id' ≡ ok k
    → k.key ≡ prefix ++ rest
    → ⊥
unfolding write_key_prefix_for
writes-ne-key scope thread thread' ns ns' id id' prefix rest k p e same =
    let (_, q) = fail_if-eq-ok (thread == "") invalid_argument _ _ p in
    let (_, made) = fail_if-eq-ok (id == "") invalid_argument _ _ q in
    starts_with_no_digit scope thread' ns' id' k _ e refl
      (same ∙ ap (λ w. w ++ rest) (sym (ok-injective made)) ∙ three_parts "w" "rites/" _ rest)
