-- ===== src/Prelude/Decimal.antt =====
-- `std::to_string` of an unsigned number, and `std::from_chars` of a 64-bit one.
pub mod Round
use Prim.Native.Nat.{ℕ, zero, suc, ◌+◌, ◌-◌, ◌*◌, ◌/◌, ◌%◌, ◌^◌}
use Prim.Native.Char.{Char, code}
use Prim.Native.String.{String, ◌++◌}
use langgraph_cpp.Prelude.Tests.{ltb, leb, if◌then◌else◌}
use langgraph_cpp.Prelude.Lists.{get_elem?}
use mathlib.Core.List.{List, [], ◌∷◌}
use mathlib.Core.Bool.{Bool, ◌&&◌}
use mathlib.Core.Option.{Option, none, some}

abbrev digit_names : List String
digit_names = "0" ∷ "1" ∷ "2" ∷ "3" ∷ "4" ∷ "5" ∷ "6" ∷ "7" ∷ "8" ∷ "9" ∷ []

digit_of : Option String → String
digit_of none = ""
digit_of (some d) = d

-- A number has no more digits than its value and one.
digits : ℕ → ℕ → String → String
unfolding digit_of
digits zero n tail = tail
digits (suc fuel) n tail =
    let next = digit_of (get_elem? digit_names (n % 10)) ++ tail in
    let more = digits fuel (n / 10) next in if ltb n 10 then next else more

unfoldable pub to_string : ℕ → String
unfolding digits
to_string n = digits (suc n) n ""

abbrev is_digit : Char → Bool
is_digit c = leb b'0' (code c) && leb (code c) b'9'

-- The number that follows on from `n`, where all the characters are digits.
parse_digits : ℕ → String → Option ℕ
parse_digits n String.[] = some n
parse_digits n (String.◌∷◌ c s) =
    let rest = parse_digits (n * 10 + (code c - b'0')) s in if is_digit c then rest else none

abbrev within_64 : Option ℕ → Option ℕ
within_64 none = none
within_64 (some n) = if ltb n (2 ^ 64) then some n else none

-- The number that the whole text is, where it is one.
unfoldable pub from_chars : String → Option ℕ
unfolding parse_digits
from_chars String.[] = none
from_chars (String.◌∷◌ c s) = within_64 (parse_digits 0 (String.◌∷◌ c s))
