-- ===== src/Prelude/Decimal/Round.antt =====
-- A number that is written and read again.
use Prim.Native.Nat.{ℕ, zero, suc, ◌+◌, ◌-◌, ◌*◌, ◌/◌, ◌%◌, ◌^◌, ◌<◌}
use Prim.Native.Char.{Char, code}
use Prim.Native.String.len
use Prim.Native.String.find
use Prim.Native.String.{String, ◌++◌, find, len}
use mathlib.Core.Path.{◌≡◌, refl, sym, ap, ◌∙◌}
use mathlib.Core.Option.{some}
use mathlib.Core.Bool.{true}
use mathlib.Core.Logic.{inl, inr}
use text.Mathlib.TextLemmas.{cons-append, nil-append, nil≢cons}
use native.Mathlib.Omega.{arith}
use langgraph_cpp.Prelude.Tests.{ltb, Bool-cases}
use langgraph_cpp.Prelude.Lists.{get_elem?}
use langgraph_cpp.Prelude.Decimal.{
  digit_names, is_digit, digit_of, digits, to_string, parse_digits, from_chars,
}

append_one : (c : Char) (s : String) → String.◌∷◌ c String.[] ++ s ≡ String.◌∷◌ c s
append_one c s = cons-append c String.[] s ∙ ap (λ r. String.◌∷◌ c r) (nil-append s)

parse_one :
    (n d : ℕ) (c : Char) (tail : String)
    → is_digit c ≡ true
    → code c - b'0' ≡ d
    → parse_digits n (String.◌∷◌ c String.[] ++ tail) ≡ parse_digits (n * 10 + d) tail
unfolding parse_digits
parse_one n d c tail h e = rw (append_one c tail) (ground arith)

parse-digit :
    (n d : ℕ) (tail : String)
    → d < 10
    → parse_digits n (digit_of (get_elem? digit_names d) ++ tail) ≡ parse_digits (n * 10 + d) tail
unfolding digit_of
parse-digit n zero tail h = parse_one n 0 "0" tail refl refl
parse-digit n (suc zero) tail h = parse_one n 1 "1" tail refl refl
parse-digit n (suc (suc zero)) tail h = parse_one n 2 "2" tail refl refl
parse-digit n (suc (suc (suc zero))) tail h = parse_one n 3 "3" tail refl refl
parse-digit n (suc (suc (suc (suc zero)))) tail h = parse_one n 4 "4" tail refl refl
parse-digit n (suc (suc (suc (suc (suc zero))))) tail h = parse_one n 5 "5" tail refl refl
parse-digit n (suc (suc (suc (suc (suc (suc zero)))))) tail h = parse_one n 6 "6" tail refl refl
parse-digit n (suc (suc (suc (suc (suc (suc (suc zero))))))) tail h =
    parse_one n 7 "7" tail refl refl
parse-digit n (suc (suc (suc (suc (suc (suc (suc (suc zero)))))))) tail h =
    parse_one n 8 "8" tail refl refl
parse-digit n (suc (suc (suc (suc (suc (suc (suc (suc (suc zero))))))))) tail h =
    parse_one n 9 "9" tail refl refl
parse-digit n (suc (suc (suc (suc (suc (suc (suc (suc (suc (suc d)))))))))) tail h =
    absurd (omega arith)

parse-digits :
    (fuel n : ℕ) (tail : String)
    → n < fuel
    → parse_digits 0 (digits fuel n tail) ≡ parse_digits n tail
unfolding digits
parse-digits zero n tail h = elim h [ ]
parse-digits (suc fuel) n tail h =
    let next = digit_of (get_elem? digit_names (n % 10)) ++ tail in
    elim (Bool-cases (ltb n 10)) [
      | inl small ↦
          rw (small) (
            parse-digit 0 (n % 10) tail (omega arith)
            ∙ ap (λ k. parse_digits k tail) (ground arith))
      | inr large ↦ rw (large) (
          parse-digits fuel (n / 10) next (ground arith)
          ∙ parse-digit (n / 10) (n % 10) tail (omega arith)
          ∙ ap (λ k. parse_digits k tail) (omega arith))
    ]

-- A digit is one character.
digit-cons :
    (d : ℕ) (tail : String)
    → d < 10
    → (c : Char) × (digit_of (get_elem? digit_names d) ++ tail ≡ String.◌∷◌ c tail)
unfolding digit_of
digit-cons zero tail h = ("0", append_one "0" tail)
digit-cons (suc zero) tail h = ("1", append_one "1" tail)
digit-cons (suc (suc zero)) tail h = ("2", append_one "2" tail)
digit-cons (suc (suc (suc zero))) tail h = ("3", append_one "3" tail)
digit-cons (suc (suc (suc (suc zero)))) tail h = ("4", append_one "4" tail)
digit-cons (suc (suc (suc (suc (suc zero))))) tail h = ("5", append_one "5" tail)
digit-cons (suc (suc (suc (suc (suc (suc zero)))))) tail h = ("6", append_one "6" tail)
digit-cons (suc (suc (suc (suc (suc (suc (suc zero))))))) tail h = ("7", append_one "7" tail)
digit-cons (suc (suc (suc (suc (suc (suc (suc (suc zero)))))))) tail h = ("8", append_one "8" tail)
digit-cons (suc (suc (suc (suc (suc (suc (suc (suc (suc zero))))))))) tail h =
    ("9", append_one "9" tail)
digit-cons (suc (suc (suc (suc (suc (suc (suc (suc (suc (suc d)))))))))) tail h =
    absurd (omega arith)

digits-cons :
    (fuel n : ℕ) (tail : String)
    → n < fuel
    → (c : Char) × (s : String) × (digits fuel n tail ≡ String.◌∷◌ c s)
unfolding digits
digits-cons zero n tail h = elim h [ ]
digits-cons (suc fuel) n tail h = elim (Bool-cases (ltb n 10)) [
  | inl small ↦ let (c, e) = digit-cons (n % 10) tail (omega arith) in (c, tail, rw (small, e) refl)
  | inr large ↦
      let next = digit_of (get_elem? digit_names (n % 10)) ++ tail in
      let (c, s, e) = digits-cons fuel (n / 10) next (ground arith) in (c, s, rw (large, e) refl)
]

from_chars-cons :
    (s t : String) (c : Char) (n : ℕ)
    → s ≡ String.◌∷◌ c t
    → parse_digits 0 s ≡ some n
    → n < 2 ^ 64
    → from_chars s ≡ some n
unfolding from_chars
from_chars-cons String.[] t c n e h small = absurd (nil≢cons e)
from_chars-cons (String.◌∷◌ d s) t c n e h small = rw (h) (ground arith)

-- A number of 64 bits is read back from its text.
pub from_chars-to_string : (n : ℕ) → n < 2 ^ 64 → from_chars (to_string n) ≡ some n
unfolding to_string parse_digits
from_chars-to_string n h =
    let (c, s, e) = digits-cons (suc n) n "" (omega arith) in
    from_chars-cons (digits (suc n) n "") s c n e (parse-digits (suc n) n "" (omega arith)) h

-- No colon stands among digits.
find-digits :
    (n k : ℕ) (s r : String) → parse_digits n s ≡ some k → find (s ++ (":" ++ r)) ":" ≡ len s
unfolding parse_digits
find-digits n k String.[] r h =
    rw (nil-append (":" ++ r), append_one ":" r) (find.cons ":" r ":" ∙ sym len.nil)
find-digits n k (String.◌∷◌ c s) r h = rw (cons-append c s (":" ++ r)) (
    find.cons c (s ++ (":" ++ r)) ":"
    ∙ ground (arith, find-digits (n * 10 + (code c - b'0')) k s r, len.cons c s))

-- The first colon behind a number.
pub find-to_string : (n : ℕ) (r : String) → find (to_string n ++ (":" ++ r)) ":" ≡ len (to_string n)
unfolding to_string parse_digits
find-to_string n r =
    find-digits 0 n (digits (suc n) n "") r (parse-digits (suc n) n "" (omega arith))
