-- ===== src/Prelude/Sets.antt =====
-- `std::set<std::string>`: the members in order.
use Prim.Native.Nat.{Ordering}
use Prim.Native.String.{String}
use mathlib.Core.Path.{◌≡◌}
use mathlib.Core.Bool.{Bool, ◌||◌}
use mathlib.Core.Option.{Option, none, some}
use mathlib.Core.List.{List, [], ◌∷◌}
use native.Mathlib.Omega.{arith}
use langgraph_cpp.Prelude.Tests.{text_key, ◌==◌}
use langgraph_cpp.Prelude.Lists.{any}

abbrev pub member_of : String → List String → Bool
member_of x = any (λ y. y == x)

-- `std::set::insert`
unfoldable pub add_to_set : String → List String → List String
add_to_set x [] = x ∷ []
add_to_set x (y ∷ ys) = elim (text_key.cmp x y) [
  | Ordering.lt ↦ x ∷ y ∷ ys
  | Ordering.eq ↦ y ∷ ys
  | Ordering.gt ↦ y ∷ add_to_set x ys
]

pub member_of-add_to_set :
    (x y : String) (s : List String) → member_of y (add_to_set x s) ≡ (x == y || member_of y s)
unfolding add_to_set any
member_of-add_to_set x y [] = ground arith
member_of-add_to_set x y (z ∷ s) = ground (
  arith,
  text_key.cmp_iff x z,
  text_key.cmp_iff x y,
  text_key.cmp_iff z y,
  member_of-add_to_set x y s,
)

-- The list that a map holds at a key; a missing key holds none.
abbrev pub targets_of : Option (List String) → List String
targets_of none = []
targets_of (some ts) = ts
