-- ===== src/Checkpoint/Hex.antt =====
-- `hexEncode` of src/langgraph/checkpoint/checkpointer.cpp: two digits for each byte of a text's UTF-8.
pub mod Injective
use Prim.Native.Char.{Char, code}
use Prim.Native.String.{String, ◌++◌}
use langgraph_cpp.Prelude.{
  ℕ, ◌+◌, ◌/◌, ◌%◌, Option, none, some, List, [], ◌∷◌, get_elem?, ltb, if◌then◌else◌,
}

abbrev hex_names : List String
hex_names =
    "0" ∷ "1" ∷ "2" ∷ "3" ∷ "4" ∷ "5" ∷ "6" ∷ "7" ∷ "8" ∷ "9" ∷ "a" ∷ "b" ∷ "c" ∷ "d" ∷ "e" ∷ "f"
    ∷ []

name_or : Option String → String
name_or none = ""
name_or (some s) = s

hex_digit : ℕ → String
unfolding name_or
hex_digit n = name_or (get_elem? hex_names n)

-- The bytes of a character's UTF-8.
abbrev utf8 : ℕ → List ℕ
utf8 n =
    if ltb n 128
    then n ∷ []
    else if ltb n 2048
    then (192 + n / 64) ∷ (128 + n % 64) ∷ []
    else if ltb n 65536
    then (224 + n / 4096) ∷ (128 + n / 64 % 64) ∷ (128 + n % 64) ∷ []
    else (240 + n / 262144) ∷ (128 + n / 4096 % 64) ∷ (128 + n / 64 % 64) ∷ (128 + n % 64) ∷ []

hex_bytes : List ℕ → String → String
unfolding hex_digit
hex_bytes [] rest = rest
hex_bytes (b ∷ bs) rest = hex_digit (b / 16) ++ (hex_digit (b % 16) ++ hex_bytes bs rest)

unfoldable pub hex_encode : String → String
unfolding hex_bytes
hex_encode String.[] = ""
hex_encode (String.◌∷◌ c s) = hex_bytes (utf8 (code c)) (hex_encode s)
