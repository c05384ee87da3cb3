-- ===== src/Prelude/Sort.antt =====
-- `std::stable_sort` and `std::find_if`.
use mathlib.Core.Path.{◌≡◌, refl, sym, ◌∙◌, ap}
use mathlib.Core.Logic.{inl, inr}
use mathlib.Core.Bool.{Bool, true, false, not, ◌||◌, ◌&&◌}
use mathlib.Core.List.{List, [], ◌∷◌, ◌++◌}
use mathlib.Core.List.{Memᴰ}
use mathlib.Core.List.Memᴰ
use mathlib.Core.Option.{Option, none, some}
use native.Mathlib.Omega.{arith}
use langgraph_cpp.Prelude.Tests.{if◌then◌else◌, Bool-cases, has_value}
use langgraph_cpp.Prelude.Lists.{any, All, keep, All-keep}

module _ {ℓ} {A : Type ℓ} where
  unfoldable pub find_if : (A → Bool) → List A → Option A
  find_if p [] = none
  find_if p (x ∷ xs) = if p x then some x else find_if p xs

  -- Before the first element that is not below `x`.
  unfoldable pub place : (A → A → Bool) → A → List A → List A
  place less x [] = x ∷ []
  place less x (y ∷ ys) = let rest = place less x ys in if less y x then y ∷ rest else x ∷ y ∷ ys

  -- Equal elements keep their order: each is placed before its equals that come later.
  unfoldable pub stable_sort : (A → A → Bool) → List A → List A
  stable_sort less [] = []
  stable_sort less (x ∷ xs) = place less x (stable_sort less xs)

  module _ (p : A → Bool) where
    pub any-append : (xs : List A) (x : A) → any p (xs ++ x ∷ []) ≡ (any p xs || p x)
    unfolding any
    any-append [] x = ground arith
    any-append (y ∷ ys) x = ground (arith, any-append ys x)

    pub find_if-append :
        (xs : List A) (x : A)
        → any p xs ≡ false
        → find_if p (xs ++ x ∷ []) ≡ (if p x then some x else none)
    unfolding any find_if
    find_if-append [] x h = refl
    find_if-append (y ∷ ys) x h = ground (arith, find_if-append ys x)

    pub find_if-append_other :
        (xs : List A) (x : A) → p x ≡ false → find_if p (xs ++ x ∷ []) ≡ find_if p xs
    unfolding find_if
    find_if-append_other [] x h = ground arith
    find_if-append_other (y ∷ ys) x h = ground (arith, find_if-append_other ys x h)

    pub any-find_if : (xs : List A) → any p xs ≡ has_value (find_if p xs)
    unfolding any find_if
    any-find_if [] = refl
    any-find_if (y ∷ ys) = ground (arith, any-find_if ys)

  module _ (less : A → A → Bool) (p : A → Bool) where
    any-place : (x : A) (ys : List A) → any p (place less x ys) ≡ (p x || any p ys)
    unfolding any place
    any-place x [] = ground arith
    any-place x (y ∷ ys) = ground (arith, any-place x ys)

    pub any-stable_sort : (xs : List A) → any p (stable_sort less xs) ≡ any p xs
    unfolding any stable_sort
    any-stable_sort [] = refl
    any-stable_sort (x ∷ xs) = ground (arith, any-place x (stable_sort less xs), any-stable_sort xs)

    find_if-place_other :
        (x : A) (ys : List A) → p x ≡ false → find_if p (place less x ys) ≡ find_if p ys
    unfolding find_if place
    find_if-place_other x [] h = ground arith
    find_if-place_other x (y ∷ ys) h = ground (arith, find_if-place_other x ys h)

    find_if-place_new :
        (x : A) (ys : List A) → p x ≡ true → any p ys ≡ false → find_if p (place less x ys) ≡ some x
    unfolding find_if place any
    find_if-place_new x [] h n = ground arith
    find_if-place_new x (y ∷ ys) h n = ground (arith, find_if-place_new x ys h)

    -- No two members match.
    abbrev pub AtMostOne : List A → Type 0
    AtMostOne [] = Unit
    AtMostOne (x ∷ xs) = (p x && any p xs ≡ false) × AtMostOne xs

    place-AtMostOne :
        (x : A) (ys : List A) → p x && any p ys ≡ false → AtMostOne ys → AtMostOne (place less x ys)
    unfolding place any
    place-AtMostOne x [] h u = (h, tt)
    place-AtMostOne x (y ∷ ys) h u = ground (arith, any-place x ys, place-AtMostOne x ys)

    pub stable_sort-AtMostOne : (xs : List A) → AtMostOne xs → AtMostOne (stable_sort less xs)
    unfolding stable_sort any
    stable_sort-AtMostOne [] u = tt
    stable_sort-AtMostOne (x ∷ xs) u =
        place-AtMostOne x (stable_sort less xs) (ap (λ b. p x && b) (any-stable_sort xs) ∙ u.0)
          (stable_sort-AtMostOne xs u.1)

    -- Where no two members match, sorting does not change what a search finds.
    pub find_if-stable_sort :
        (xs : List A) → AtMostOne xs → find_if p (stable_sort less xs) ≡ find_if p xs
    unfolding stable_sort find_if
    find_if-stable_sort [] u = refl
    find_if-stable_sort (x ∷ xs) u = elim (Bool-cases (p x)) [
      | inl hit ↦
          rw hit (find_if-place_new x (stable_sort less xs) hit (any-stable_sort xs ∙ ground arith))
      | inr miss ↦
          rw miss (find_if-place_other x (stable_sort less xs) miss ∙ find_if-stable_sort xs u.1)
    ]

    pub append-AtMostOne :
        (xs : List A) (x : A) → p x && any p xs ≡ false → AtMostOne xs → AtMostOne (xs ++ x ∷ [])
    unfolding any
    append-AtMostOne [] x h u = (ground arith, tt)
    append-AtMostOne (y ∷ ys) x h u =
        (ground (arith, any-append p ys x), append-AtMostOne ys x (ground arith) u.1)

  -- The members are in an order in which none is below the one before it.
  module _ (less : A → A → Bool) where
    abbrev pub NoneBelow : A → List A → Type 0
    NoneBelow x [] = Unit
    NoneBelow x (y ∷ ys) = (less y x ≡ false) × NoneBelow x ys

    abbrev pub IsOrdered : List A → Type 0
    IsOrdered [] = Unit
    IsOrdered (x ∷ xs) = NoneBelow x xs × IsOrdered xs

    module _ (flip : (x y : A) → less x y ≡ true → less y x ≡ false)
        (trans : (x y z : A) → less y x ≡ false → less z y ≡ false → less z x ≡ false) where
      NoneBelow-trans : (x y : A) (zs : List A) → less y x ≡ false → NoneBelow y zs → NoneBelow x zs
      NoneBelow-trans x y [] h n = tt
      NoneBelow-trans x y (z ∷ zs) h n = (trans x y z h n.0, NoneBelow-trans x y zs h n.1)

      place-NoneBelow :
          (x y : A) (ys : List A)
          → less x y ≡ false
          → NoneBelow y ys
          → NoneBelow y (place less x ys)
      unfolding place
      place-NoneBelow x y [] h n = (h, tt)
      place-NoneBelow x y (z ∷ zs) h n = ground (arith, place-NoneBelow x y zs h n.1)

      place-IsOrdered : (x : A) (ys : List A) → IsOrdered ys → IsOrdered (place less x ys)
      unfolding place
      place-IsOrdered x [] o = (tt, tt)
      place-IsOrdered x (y ∷ ys) o = elim (Bool-cases (less y x)) [
        | inl below ↦
            rw below (place-NoneBelow x y ys (flip y x below) o.0, place-IsOrdered x ys o.1)
        | inr other ↦ rw other ((other, NoneBelow-trans x y ys other o.0), o)
      ]

      pub stable_sort-IsOrdered : (xs : List A) → IsOrdered (stable_sort less xs)
      unfolding stable_sort
      stable_sort-IsOrdered [] = tt
      stable_sort-IsOrdered (x ∷ xs) =
          place-IsOrdered x (stable_sort less xs) (stable_sort-IsOrdered xs)

    abbrev pub Apart : A → A → Type 0
    Apart x y = (less x y || less y x) ≡ true

    -- Any two members are told apart by the order.
    abbrev pub AllApart : List A → Type ℓ
    AllApart [] = Unit
    AllApart (x ∷ xs) = All (Apart x) xs × AllApart xs

    -- Members that the order tells apart are sorted into the same places from anywhere.
    module _ (strict : (x y : A) → less x y ≡ true → less y x ≡ false)
        (chain : (x y z : A) → less x y ≡ true → less y z ≡ true → less x z ≡ true) where
      place-swap :
          (x y : A) (zs : List A)
          → Apart x y
          → place less x (place less y zs) ≡ place less y (place less x zs)
      unfolding place
      place-swap x y [] h = ground (arith, strict x y)
      place-swap x y (z ∷ zs) h =
          ground (arith, strict x y, chain z x y, chain z y x, place-swap x y zs h)

      stable_sort-move :
          (x : A) (ys zs : List A)
          → All (Apart x) ys
          → stable_sort less (ys ++ x ∷ zs) ≡ place less x (stable_sort less (ys ++ zs))
      unfolding stable_sort
      stable_sort-move x [] zs h = refl
      stable_sort-move x (y ∷ ys) zs h =
          ap (place less y) (stable_sort-move x ys zs h.1)
          ∙ sym (place-swap x y (stable_sort less (ys ++ zs)) h.0)

      -- Then a list may be sorted after it has been taken apart in any way.
      pub stable_sort-split :
          (p : A → Bool) (xs : List A)
          → AllApart xs
          → stable_sort less (keep p xs ++ keep (λ x. not (p x)) xs) ≡ stable_sort less xs
      unfolding stable_sort keep
      stable_sort-split p [] h = refl
      stable_sort-split p (x ∷ xs) h = elim (Bool-cases (p x)) [
        | inl first ↦ rw (first, keep) (ap (place less x) (stable_sort-split p xs h.1))
        | inr second ↦
            rw (second, keep)
              (stable_sort-move x (keep p xs) (keep (λ y. not (p y)) xs)
                  (All-keep (Apart x) p xs h.0)
                ∙ ap (place less x) (stable_sort-split p xs h.1))
      ]

module _ {ℓ} {A : Type ℓ} (less : A → A → Bool) where
  place-Memᴰ : (x : A) (ys : List A) → Memᴰ x (place less x ys)
  unfolding place
  place-Memᴰ x [] = Memᴰ.head refl
  place-Memᴰ x (y ∷ ys) = elim (Bool-cases (less y x)) [
    | inl below ↦ rw (below, place) (Memᴰ.tail (place-Memᴰ x ys))
    | inr above ↦ rw (above, place) (Memᴰ.head refl)
  ]

  place-Memᴰ_other : (a x : A) (ys : List A) → Memᴰ a ys → Memᴰ a (place less x ys)
  unfolding place
  place-Memᴰ_other a x [] h = elim h [ ]
  place-Memᴰ_other a x (y ∷ ys) (Memᴰ.head e) = elim (Bool-cases (less y x)) [
    | inl below ↦ rw (below, place) (Memᴰ.head e)
    | inr above ↦ rw (above, place) (Memᴰ.tail (Memᴰ.head e))
  ]
  place-Memᴰ_other a x (y ∷ ys) (Memᴰ.tail m) = elim (Bool-cases (less y x)) [
    | inl below ↦ rw (below, place) (Memᴰ.tail (place-Memᴰ_other a x ys m))
    | inr above ↦ rw (above, place) (Memᴰ.tail (Memᴰ.tail m))
  ]

  -- Sorting loses nothing.
  pub stable_sort-Memᴰ : (a : A) (xs : List A) → Memᴰ a xs → Memᴰ a (stable_sort less xs)
  unfolding stable_sort
  stable_sort-Memᴰ a [] h = elim h [ ]
  stable_sort-Memᴰ a (x ∷ xs) (Memᴰ.head e) = Memᴰ.cast e (place-Memᴰ x (stable_sort less xs))
  stable_sort-Memᴰ a (x ∷ xs) (Memᴰ.tail m) =
      place-Memᴰ_other a x (stable_sort less xs) (stable_sort-Memᴰ a xs m)
