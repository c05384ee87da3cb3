-- ===== src/Checkpoint/Hex/Injective.antt =====
-- Different texts have different codes, also where something else than a digit follows.
use Prim.Native.Char.{Char, char, code}
use Prim.Native.String.{String, ◌++◌}
use text.Mathlib.TextEquality.{Char-path}
use text.Mathlib.TextLemmas.{
  cons-append, nil-append, cons≢nil, head-eq_of_cons-eq, tail-eq_of_cons-eq, append_assoc,
}
use langgraph_cpp.Prelude.{
  ℕ, zero, suc, ◌+◌, ◌/◌, ◌%◌, ◌<◌, ◌≡◌, refl, sym, ap, ◌∙◌, Bool, true, false, ◌&&◌, ◌||◌, List,
  [], ◌∷◌, ltb, leb, if◌then◌else◌, length, All, arith,
}
use langgraph_cpp.Checkpoint.Hex.{hex_digit, utf8, hex_bytes, hex_encode}

abbrev hex_code : ℕ → ℕ
hex_code n = if ltb n 10 then 48 + n else 87 + n

abbrev pub is_hex : ℕ → Bool
is_hex n = (leb 48 n && leb n 57) || (leb 97 n && leb n 102)

one : (c : Char) (s : String) → String.◌∷◌ c String.[] ++ s ≡ String.◌∷◌ c s
one c s = cons-append c String.[] s ∙ ap (λ r. String.◌∷◌ c r) (nil-append s)

hex_digit-cons :
    (n : ℕ) (s : String)
    → n < 16
    → (c : Char) × (hex_digit n ++ s ≡ String.◌∷◌ c s) × (code c ≡ hex_code n)
unfolding hex_digit
hex_digit-cons zero s h = ("0", one "0" s, refl)
hex_digit-cons (suc zero) s h = ("1", one "1" s, refl)
hex_digit-cons (suc (suc zero)) s h = ("2", one "2" s, refl)
hex_digit-cons (suc (suc (suc zero))) s h = ("3", one "3" s, refl)
hex_digit-cons (suc (suc (suc (suc zero)))) s h = ("4", one "4" s, refl)
hex_digit-cons (suc (suc (suc (suc (suc zero))))) s h = ("5", one "5" s, refl)
hex_digit-cons (suc (suc (suc (suc (suc (suc zero)))))) s h = ("6", one "6" s, refl)
hex_digit-cons (suc (suc (suc (suc (suc (suc (suc zero))))))) s h = ("7", one "7" s, refl)
hex_digit-cons (suc (suc (suc (suc (suc (suc (suc (suc zero)))))))) s h = ("8", one "8" s, refl)
hex_digit-cons (suc (suc (suc (suc (suc (suc (suc (suc (suc zero))))))))) s h =
    ("9", one "9" s, refl)
hex_digit-cons (suc (suc (suc (suc (suc (suc (suc (suc (suc (suc zero)))))))))) s h =
    ("a", one "a" s, refl)
hex_digit-cons (suc (suc (suc (suc (suc (suc (suc (suc (suc (suc (suc zero))))))))))) s h =
    ("b", one "b" s, refl)
hex_digit-cons (suc (suc (suc (suc (suc (suc (suc (suc (suc (suc (suc (suc zero)))))))))))) s h =
    ("c", one "c" s, refl)
hex_digit-cons (suc (suc (suc (suc (suc (suc (suc (suc (suc (suc (suc (suc (suc zero))))))))))))) s
      h =
    ("d", one "d" s, refl)
hex_digit-cons
      (suc (suc (suc (suc (suc (suc (suc (suc (suc (suc (suc (suc (suc (suc zero)))))))))))))) s h =
    ("e", one "e" s, refl)
hex_digit-cons
      (suc (suc (suc (suc (suc (suc (suc (suc (suc (suc (suc (suc (suc (suc (suc zero)))))))))))))))
      s h =
    ("f", one "f" s, refl)
hex_digit-cons
      (suc
        (suc (suc (suc (suc (suc (suc (suc (suc (suc (suc (suc (suc (suc (suc (suc n))))))))))))))))
      s h =
    absurd (omega arith)

-- Two digits that begin one text are the same digit.
hex_digit-injective :
    (m n : ℕ) (s t : String)
    → m < 16
    → n < 16
    → hex_digit m ++ s ≡ hex_digit n ++ t
    → (m ≡ n) × (s ≡ t)
hex_digit-injective m n s t p q e =
    let (c, ec, cc') = hex_digit-cons m s p in
    let (d, ed, dd) = hex_digit-cons n t q in
    let h : String.◌∷◌ c s ≡ String.◌∷◌ d t = sym ec ∙ e ∙ ed in
    (ground (arith, ap code (head-eq_of_cons-eq h), cc', dd), tail-eq_of_cons-eq h)

hex_bytes-injective :
    (bs ds : List ℕ) (s t : String)
    → All (λ b. b < 256) bs
    → All (λ b. b < 256) ds
    → length bs ≡ length ds
    → hex_bytes bs s ≡ hex_bytes ds t
    → (bs ≡ ds) × (s ≡ t)
unfolding hex_bytes
hex_bytes-injective [] [] s t p q l e = (refl, e)
hex_bytes-injective [] (d ∷ ds) s t p q l e = absurd (omega (arith, l))
hex_bytes-injective (b ∷ bs) [] s t p q l e = absurd (omega (arith, l))
hex_bytes-injective (b ∷ bs) (d ∷ ds) s t p q l e =
    let (high, e1) = hex_digit-injective (b / 16) (d / 16) _ _ (omega arith) (omega arith) e in
    let (low, e2) = hex_digit-injective (b % 16) (d % 16) _ _ (omega arith) (omega arith) e1 in
    let (rest, e3) = hex_bytes-injective bs ds s t p.1 q.1 (omega (arith, l)) e2 in
    let head : b ≡ d = omega (arith, high, low) in (rw (head, rest) refl, e3)

hex_bytes-head :
    (b d : ℕ) (bs ds : List ℕ) (s t : String)
    → b < 256
    → d < 256
    → hex_bytes (b ∷ bs) s ≡ hex_bytes (d ∷ ds) t
    → b ≡ d
unfolding hex_bytes
hex_bytes-head b d bs ds s t p q e =
    let (high, e1) = hex_digit-injective (b / 16) (d / 16) _ _ (omega arith) (omega arith) e in
    let (low, e2) = hex_digit-injective (b % 16) (d % 16) _ _ (omega arith) (omega arith) e1 in
    omega (arith, high, low)

code_bound : (c : Char) → code c < 1114112
code_bound (char n p) = ground (arith, p)

utf8-bytes : (n : ℕ) → n < 1114112 → All (λ b. b < 256) (utf8 n)
utf8-bytes n h = ground arith

abbrev first_byte : ℕ → ℕ
first_byte n =
    if ltb n 128
    then n
    else if ltb n 2048
    then 192 + n / 64
    else if ltb n 65536
    then 224 + n / 4096
    else 240 + n / 262144

abbrev later_bytes : ℕ → List ℕ
later_bytes n =
    if ltb n 128
    then []
    else if ltb n 2048
    then (128 + n % 64) ∷ []
    else if ltb n 65536
    then (128 + n / 64 % 64) ∷ (128 + n % 64) ∷ []
    else (128 + n / 4096 % 64) ∷ (128 + n / 64 % 64) ∷ (128 + n % 64) ∷ []

utf8-cons : (n : ℕ) → utf8 n ≡ first_byte n ∷ later_bytes n
utf8-cons n = ground arith

first_byte-lt : (n : ℕ) → n < 1114112 → first_byte n < 256
first_byte-lt n h = ground arith

length-utf8 :
    (m n : ℕ)
    → m < 1114112
    → n < 1114112
    → first_byte m ≡ first_byte n
    → length (utf8 m) ≡ length (utf8 n)
length-utf8 m n p q e = ground arith

utf8-injective : (m n : ℕ) → m < 1114112 → n < 1114112 → utf8 m ≡ utf8 n → m ≡ n
utf8-injective m n p q e = ground arith

-- The digits of a character tell it, and what follows.
char-injective :
    (c d : Char) (s t : String)
    → hex_bytes (utf8 (code c)) s ≡ hex_bytes (utf8 (code d)) t
    → (c ≡ d) × (s ≡ t)
char-injective c d s t e =
    let m = code c in
    let n = code d in
    let p = code_bound c in
    let q = code_bound d in
    let same_first : first_byte m ≡ first_byte n =
      hex_bytes-head (first_byte m) (first_byte n) (later_bytes m) (later_bytes n) s t
        (first_byte-lt m p) (first_byte-lt n q)
        (ap (λ bs. hex_bytes bs s) (sym (utf8-cons m))
          ∙ e
          ∙ ap (λ bs. hex_bytes bs t) (utf8-cons n)) in
    let (bytes, rest) =
      hex_bytes-injective (utf8 m) (utf8 n) s t (utf8-bytes m p) (utf8-bytes n q)
        (length-utf8 m n p q same_first) e in
    (Char-path c d (utf8-injective m n p q bytes), rest)

-- No digit comes first.
abbrev pub NotHex : String → Type 0
NotHex String.[] = Unit
NotHex (String.◌∷◌ c s) = is_hex (code c) ≡ false

hex_bytes-append : (bs : List ℕ) (s t : String) → hex_bytes bs s ++ t ≡ hex_bytes bs (s ++ t)
unfolding hex_bytes
hex_bytes-append [] s t = refl
hex_bytes-append (b ∷ bs) s t =
    append_assoc (hex_digit (b / 16)) (hex_digit (b % 16) ++ hex_bytes bs s) t
    ∙ ap (λ x. hex_digit (b / 16) ++ x)
        (append_assoc (hex_digit (b % 16)) (hex_bytes bs s) t
          ∙ ap (λ x. hex_digit (b % 16) ++ x) (hex_bytes-append bs s t))

hex_code-is_hex : (n : ℕ) → n < 16 → is_hex (hex_code n) ≡ true
hex_code-is_hex n h = ground arith

true-ne-false : true ≡ false → ⊥
true-ne-false e = cc

digit-NotHex :
    (c : Char) (x r : String) → String.◌∷◌ c x ≡ r → is_hex (code c) ≡ true → NotHex r → ⊥
digit-NotHex c x String.[] e h n = cons≢nil e
digit-NotHex c x (String.◌∷◌ d r) e h n =
    true-ne-false (sym h ∙ ap (λ a. is_hex (code a)) (head-eq_of_cons-eq e) ∙ n)

-- What begins with the digits of a byte is no text that begins with no digit.
hex_bytes-NotHex :
    (b : ℕ) (bs : List ℕ) (s r : String) → b < 256 → hex_bytes (b ∷ bs) s ≡ r → NotHex r → ⊥
unfolding hex_bytes
hex_bytes-NotHex b bs s r h e n =
    let (c, ec, same) =
      hex_digit-cons (b / 16) (hex_digit (b % 16) ++ hex_bytes bs s) (omega arith) in
    digit-NotHex c (hex_digit (b % 16) ++ hex_bytes bs s) r (sym ec ∙ e)
      (ap (λ a. is_hex a) same ∙ hex_code-is_hex (b / 16) (omega arith)) n

char-NotHex : (c : Char) (s r : String) → hex_bytes (utf8 (code c)) s ≡ r → NotHex r → ⊥
char-NotHex c s r e n =
    hex_bytes-NotHex (first_byte (code c)) (later_bytes (code c)) s r
      (first_byte-lt (code c) (code_bound c))
      (ap (λ bs. hex_bytes bs s) (sym (utf8-cons (code c))) ∙ e) n

-- A code is told from what follows it, where that does not begin with a digit.
pub hex_encode-injective :
    (s t x y : String)
    → hex_encode s ++ x ≡ hex_encode t ++ y
    → NotHex x
    → NotHex y
    → (s ≡ t) × (x ≡ y)
unfolding hex_encode
hex_encode-injective String.[] String.[] x y e p q = (refl, sym (nil-append x) ∙ e ∙ nil-append y)
hex_encode-injective String.[] (String.◌∷◌ d t) x y e p q = absurd (
    char-NotHex d (hex_encode t ++ y) x
      (sym (hex_bytes-append (utf8 (code d)) (hex_encode t) y) ∙ sym e ∙ nil-append x) p)
hex_encode-injective (String.◌∷◌ c s) String.[] x y e p q = absurd (
    char-NotHex c (hex_encode s ++ x) y
      (sym (hex_bytes-append (utf8 (code c)) (hex_encode s) x) ∙ e ∙ nil-append y) q)
hex_encode-injective (String.◌∷◌ c s) (String.◌∷◌ d t) x y e p q =
    let (first, e1) = char-injective c d (hex_encode s ++ x) (hex_encode t ++ y) (
      sym (hex_bytes-append (utf8 (code c)) (hex_encode s) x)
      ∙ e
      ∙ hex_bytes-append (utf8 (code d)) (hex_encode t) y) in
    let (rest, e2) = hex_encode-injective s t x y e1 p q in (rw (first, rest) refl, e2)
