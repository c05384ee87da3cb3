-- ===== src/Prelude/Map.antt =====
-- `std::map`: an association list in the order of its keys.
use Prim.Native.Nat.{Ordering}
use mathlib.Core.Path.{◌≡◌, refl, sym, subst}
use mathlib.Core.Logic.{inl, inr}
use mathlib.Core.List.{List, [], ◌∷◌}
use mathlib.Core.Bool.{Bool}
use mathlib.Core.Option.{Option, none, some}
use native.Mathlib.Omega.{arith}
use langgraph_cpp.Prelude.Tests.{Key, ◌==◌, if◌then◌else◌, has_value, Ordering-cases}

abbrev pub Map {ℓ κ} : Type ℓ → Type κ → Type (ℓ ⊔ κ)
Map K V = List (K × V)

module _ {ℓ κ} {K : Type ℓ} {V : Type κ} ⦃o : Key K⦄ where
  unfoldable pub lookup : K → Map K V → Option V
  lookup k [] = none
  lookup k ((head, held) ∷ rest) = if head == k then some held else lookup k rest

  -- `m[k] = v`
  unfoldable pub insert : K → V → Map K V → Map K V
  insert k v [] = (k, v) ∷ []
  insert k v ((j, w) ∷ m) = elim (o.cmp k j) [
    | Ordering.lt ↦ (k, v) ∷ (j, w) ∷ m
    | Ordering.eq ↦ (k, v) ∷ m
    | Ordering.gt ↦ (j, w) ∷ insert k v m
  ]

  unfoldable pub erase : K → Map K V → Map K V
  erase k [] = []
  erase k ((j, w) ∷ m) = let rest = erase k m in if j == k then rest else (j, w) ∷ rest

  abbrev pub contains : K → Map K V → Bool
  contains k m = has_value (lookup k m)

  pub lookup-insert :
      (k j : K) (v : V) (m : Map K V)
      → lookup j (insert k v m) ≡ (if k == j then some v else lookup j m)
  unfolding lookup insert
  lookup-insert k j v [] = refl
  lookup-insert k j v ((head, held) ∷ rest) =
      ground (arith, o.cmp_iff k head, o.cmp_iff head j, o.cmp_iff k j, lookup-insert k j v rest)

  pub lookup-erase :
      (k j : K) (m : Map K V) → lookup j (erase k m) ≡ (if k == j then none else lookup j m)
  unfolding lookup erase
  lookup-erase k j [] = ground arith
  lookup-erase k j ((i, w) ∷ m) =
      ground (arith, o.cmp_iff k j, o.cmp_iff i j, o.cmp_iff i k, lookup-erase k j m)

  -- No key is listed twice.
  abbrev pub IsUnique : Map K V → Type (ℓ ⊔ κ)
  IsUnique [] = Unit
  IsUnique ((k, v) ∷ m) = (lookup k m ≡ none) × IsUnique m

  pub insert-insert : (k : K) (v w : V) (m : Map K V) → insert k v (insert k w m) ≡ insert k v m
  unfolding insert
  insert-insert k v w [] = ground (arith, o.cmp_iff k k)
  insert-insert k v w ((i, u) ∷ m) =
      ground (arith, o.cmp_iff k k, o.cmp_iff k i, insert-insert k v w m)

  pub lookup-insert_self : (k : K) (v : V) (m : Map K V) → lookup k (insert k v m) ≡ some v
  lookup-insert_self k v m = ground (arith, lookup-insert k k v m, o.cmp_iff k k)

  -- A map's keys in order: `k` is below every key.
  abbrev pub IsAbove : K → Map K V → Type 0
  IsAbove k [] = Unit
  IsAbove k ((j, v) ∷ m) = (o.cmp k j ≡ Ordering.lt) × IsAbove k m

  abbrev pub IsSorted : Map K V → Type 0
  IsSorted [] = Unit
  IsSorted ((k, v) ∷ m) = IsAbove k m × IsSorted m

  IsAbove-trans : (j k : K) (m : Map K V) → o.cmp j k ≡ Ordering.lt → IsAbove k m → IsAbove j m
  IsAbove-trans j k [] h a = tt
  IsAbove-trans j k ((i, v) ∷ m) h a = (o.cmp_trans j k i h a.0, IsAbove-trans j k m h a.1)

  lookup_above : (k : K) (m : Map K V) → IsAbove k m → lookup k m ≡ none
  unfolding lookup
  lookup_above k [] a = refl
  lookup_above k ((j, v) ∷ m) a = ground (arith, o.cmp_iff j k, o.cmp_iff k j, lookup_above k m a.1)

  insert-IsAbove :
      (j k : K) (v : V) (m : Map K V)
      → o.cmp j k ≡ Ordering.lt
      → IsAbove j m
      → IsAbove j (insert k v m)
  unfolding insert
  insert-IsAbove j k v [] h a = (h, tt)
  insert-IsAbove j k v ((i, w) ∷ m) h a = ground (arith, insert-IsAbove j k v m h a.1)

  -- Every `m[k] = v` keeps the keys in order.
  pub insert-IsSorted : (k : K) (v : V) (m : Map K V) → IsSorted m → IsSorted (insert k v m)
  unfolding insert
  insert-IsSorted k v [] s = (tt, tt)
  insert-IsSorted k v ((i, w) ∷ m) s = elim (Ordering-cases (o.cmp k i)) [
    | inl below ↦ rw (below, insert) ((below, IsAbove-trans k i m below s.0), s)
    | inr (inl same) ↦
        rw (same, insert) (subst (λ j. IsAbove j m) (sym ((o.cmp_iff k i).0 same)) s.0, s.1)
    | inr (inr above) ↦
        rw (above, insert)
          (insert-IsAbove i k v m (o.cmp_flip k i above) s.0, insert-IsSorted k v m s.1)
  ]

  pub IsSorted-IsUnique : (m : Map K V) → IsSorted m → IsUnique m
  IsSorted-IsUnique [] s = tt
  IsSorted-IsUnique ((k, v) ∷ m) s = (lookup_above k m s.0, IsSorted-IsUnique m s.1)
