-- ===== src/Storage/Cursor.antt =====
-- A cursor leads back to the key that it was made from.
use Prim.Native.String.{len, slice, find}
use Prim.Native.String.len
use langgraph_cpp.Prelude.{
  ℕ, compare, Ordering, Bool-cases, key_eq_iff, inl, inr, ◌+◌, ◌^◌, ◌<◌, String, ◌≡◌, refl, sym, ap,
  ◌∙◌, false, some, ok, ◌==◌, text_key, nat_key, leb, ◌||◌, labelled, to_string, from_chars, arith,
  from_chars-to_string, find-to_string, >>=-eq-ok,
}
use text.Mathlib.TextLemmas.{append_assoc}
use text.Mathlib.TextPositions.{
  len_utf8-pos, slice-append_left, slice-append_right, len-append, boundary-append,
}
use langgraph_cpp.Storage.{
  StorageKey, StorageLimits, validate_storage_key, validate_storage_name, storage_cursor_from_key,
  storage_key_from_cursor, split_payload,
}

-- A name that passes the check has bytes.
name-nonempty :
    (s label : String) (n : ℕ) → validate_storage_name s label n ≡ ok tt → (s == "") ≡ false
unfolding validate_storage_name
name-nonempty s label n h = ground arith

len-pos : (s : String) → (s == "") ≡ false → 0 < len s
len-pos String.[] h = cc
len-pos (String.◌∷◌ c s) h = let (k, e) = len_utf8-pos c in omega (arith, len.cons c s, e)

valid-parts :
    (k : StorageKey) (limits : StorageLimits)
    → validate_storage_key k limits ≡ ok tt
    → (u : Unit {0}) × (validate_storage_name k.scope "storage scope" limits.max_scope_bytes ≡ ok u)
      × (validate_storage_name k.key "storage key" limits.max_key_bytes ≡ ok tt)
unfolding validate_storage_key
valid-parts k limits h =
    >>=-eq-ok (validate_storage_name k.scope "storage scope" limits.max_scope_bytes) _ h

not_empty : (s : String) → 0 < len s → (s == "") ≡ false
not_empty s h = elim (Bool-cases (s == "")) [
  | inl e ↦ absurd (omega (arith, h, ap len ((key_eq_iff s "").0 e)))
  | inr e ↦ e
]

-- Where a name and another one behind it are taken apart again.
split-append :
    (k : StorageKey) (limits : StorageLimits)
    → validate_storage_key k limits ≡ ok tt
    → split_payload (len k.scope) (labelled k.scope k.key) limits ≡ ok (some k)
unfolding split_payload
split-append k limits h =
    let (_, scope_ok, key_ok) = valid-parts k limits h in
    let p = len-pos k.scope (name-nonempty k.scope _ _ scope_ok) in
    let q = len-pos k.key (name-nonempty k.key _ _ key_ok) in
    let inside : ((len k.scope == 0) || leb (len k.scope + len k.key) (len k.scope)) ≡ false =
      ground arith in
    rw
      (
        len-append k.scope k.key,
        inside,
        boundary-append k.scope k.key,
        slice-append_left k.scope k.key,
        slice-append_right k.scope k.key,
        h,
      )
      refl

-- What a number, a colon and a payload are read as.
from_cursor-parts :
    (d payload : String) (n : ℕ) (limits : StorageLimits)
    → find (labelled d (labelled ":" payload)) ":" ≡ len d
    → from_chars d ≡ some n
    → storage_key_from_cursor (labelled d (labelled ":" payload)) limits
      ≡ split_payload n payload limits
unfolding storage_key_from_cursor
from_cursor-parts d payload n limits at number =
    let cursor = labelled d (labelled ":" payload) in
    let size : len cursor ≡ len d + 1 + len payload =
      omega (arith, len-append d (labelled ":" payload), len-append ":" payload) in
    let rest : slice cursor (len d + 1) (len cursor) ≡ payload =
      ap (λ n. slice cursor (len d + 1) n) size
      ∙ ap (λ s. slice s (len d + 1) (len d + 1 + len payload)) (sym (append_assoc d ":" payload))
      ∙ ap (λ n. slice (labelled (labelled d ":") payload) n (n + len payload))
          (sym (len-append d ":"))
      ∙ slice-append_right (labelled d ":") payload in
    let inside : compare (len d) (len cursor) ≡ Ordering.lt = ground (arith, size) in
    rw
      (
        not_empty cursor (omega (arith, size)),
        at,
        inside,
        slice-append_left d (labelled ":" payload),
        number,
        rest,
      )
      refl

-- The cursor of a valid key is read back as that key, where the scope has fewer than 2^64 bytes.
pub storage_key_from_cursor-of_key :
    (k : StorageKey) (limits : StorageLimits)
    → validate_storage_key k limits ≡ ok tt
    → len k.scope < 2 ^ 64
    → storage_key_from_cursor (storage_cursor_from_key k) limits ≡ ok (some k)
unfolding storage_key_from_cursor storage_cursor_from_key
storage_key_from_cursor-of_key k limits h small =
    from_cursor-parts (to_string (len k.scope)) (labelled k.scope k.key) (len k.scope) limits
      (find-to_string (len k.scope) (labelled k.scope k.key))
      (from_chars-to_string (len k.scope) small)
    ∙ split-append k limits h

-- No cursor of a key is empty, which is how a loop over pages knows the end.
pub cursor-nonempty : (k : StorageKey) → (storage_cursor_from_key k == "") ≡ false
unfolding storage_cursor_from_key
cursor-nonempty k =
    not_empty (labelled (to_string (len k.scope)) (labelled ":" (labelled k.scope k.key))) (
      omega (
        arith,
        len-append (to_string (len k.scope)) (labelled ":" (labelled k.scope k.key)),
        len-append ":" (labelled k.scope k.key),
      ))
