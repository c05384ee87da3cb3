-- ===== src/Prelude/Tests.antt =====
-- Boolean tests on numbers and texts, and the conditional.
use Prim.Native.Nat.{ℕ, compare, Ordering}
use Prim.Native.Char.{Char, code}
use Prim.Native.String.{String, compare as compare_text}
use mathlib.Core.Path.{◌≡◌, refl}
use mathlib.Core.Logic.{◌↔◌, ◌⊎◌, inl, inr}
use mathlib.Core.Bool.{Bool, true, false}
use mathlib.Core.Option.{Option, none, some}
use native.Mathlib.Omega.{arith}
use text.Mathlib.TextEquality.{path_by_compare}
use text.Mathlib.TextPositions.{compare_refl}

abbrev pub ltb : ℕ → ℕ → Bool
ltb a b = elim (compare a b) [ Ordering.lt ↦ true | _ ↦ false ]

abbrev pub leb : ℕ → ℕ → Bool
leb a b = elim (compare a b) [ Ordering.gt ↦ false | _ ↦ true ]

-- A type of keys: a comparison that tells equal keys apart from all others.
pub record Key {ℓ} (K : Type ℓ) : Type ℓ where
  pub cmp : K → K → Ordering
  pub cmp_iff : (a b : K) → (cmp a b ≡ Ordering.eq) ↔ (a ≡ b)
  pub cmp_trans :
      (a b c : K) → cmp a b ≡ Ordering.lt → cmp b c ≡ Ordering.lt → cmp a c ≡ Ordering.lt
  pub cmp_flip : (a b : K) → cmp a b ≡ Ordering.gt → cmp b a ≡ Ordering.lt

infix 50 ◌==◌
abbrev pub ◌==◌ {ℓ} : {K : Type ℓ} ⦃k : Key K⦄ → K → K → Bool
◌==◌ ⦃k⦄ a b = elim (k.cmp a b) [ Ordering.eq ↦ true | _ ↦ false ]

pub compare_iff : (a b : ℕ) → (compare a b ≡ Ordering.eq) ↔ (a ≡ b)
compare_iff a b = ground arith

pub compare_text_iff : (s t : String) → (compare_text s t ≡ Ordering.eq) ↔ (s ≡ t)
compare_text_iff s t = (path_by_compare s t, λ e. rw e (compare_refl t))

pub compare_trans :
    (a b c : ℕ) → compare a b ≡ Ordering.lt → compare b c ≡ Ordering.lt → compare a c ≡ Ordering.lt
compare_trans a b c p q = ground arith

text_gt : (c : Char) (s : String) → compare_text (String.◌∷◌ c s) String.[] ≡ Ordering.gt
text_gt c s = λ i. Prim.Native.String.compare.cons-nil c s i

text_lt : (c : Char) (s : String) → compare_text String.[] (String.◌∷◌ c s) ≡ Ordering.lt
text_lt c s = λ i. Prim.Native.String.compare.nil-cons c s i

text_step :
    (c d : Char) (s t : String)
    → compare_text (String.◌∷◌ c s) (String.◌∷◌ d t)
      ≡ Prim.Native.String.then (compare (code c) (code d)) (compare_text s t)
text_step c d s t = λ i. Prim.Native.String.compare.cons-cons c d s t i

pub compare_text_trans :
    (s t u : String)
    → compare_text s t ≡ Ordering.lt
    → compare_text t u ≡ Ordering.lt
    → compare_text s u ≡ Ordering.lt
compare_text_trans String.[] String.[] u p q = cc
compare_text_trans (String.◌∷◌ c s) String.[] u p q = cc (text_gt c s)
compare_text_trans s (String.◌∷◌ d t) String.[] p q = cc (text_gt d t)
compare_text_trans String.[] (String.◌∷◌ d t) (String.◌∷◌ e u) p q = text_lt e u
compare_text_trans (String.◌∷◌ c s) (String.◌∷◌ d t) (String.◌∷◌ e u) p q =
    ground
      (arith, text_step c d s t, text_step d e t u, text_step c e s u, compare_text_trans s t u)

pub compare_flip : (a b : ℕ) → compare a b ≡ Ordering.gt → compare b a ≡ Ordering.lt
compare_flip a b p = ground arith

pub compare_text_flip :
    (s t : String) → compare_text s t ≡ Ordering.gt → compare_text t s ≡ Ordering.lt
compare_text_flip String.[] String.[] p = cc
compare_text_flip String.[] (String.◌∷◌ d t) p = cc (text_lt d t)
compare_text_flip (String.◌∷◌ c s) String.[] p = text_lt c s
compare_text_flip (String.◌∷◌ c s) (String.◌∷◌ d t) p =
    ground (arith, text_step c d s t, text_step d c t s, compare_text_flip s t)

pub Ordering-cases : (o : Ordering) → (o ≡ Ordering.lt) ⊎ (o ≡ Ordering.eq) ⊎ (o ≡ Ordering.gt)
Ordering-cases Ordering.lt = inl refl
Ordering-cases Ordering.eq = inr (inl refl)
Ordering-cases Ordering.gt = inr (inr refl)

instance abbrev pub nat_key : Key ℕ
nat_key = record {
  cmp = compare;
  cmp_iff = compare_iff;
  cmp_trans = compare_trans;
  cmp_flip = compare_flip;
}

-- `std::string` compares by bytes, which for UTF-8 is the order of the code points.
instance abbrev pub text_key : Key String
text_key = record {
  cmp = compare_text;
  cmp_iff = compare_text_iff;
  cmp_trans = compare_text_trans;
  cmp_flip = compare_text_flip;
}

pub key_eq_iff {ℓ} : {K : Type ℓ} ⦃k : Key K⦄ (a b : K) → ((a == b) ≡ true) ↔ (a ≡ b)
key_eq_iff ⦃k⦄ a b = ground (arith, k.cmp_iff a b)

-- What is below is above the other way round.
pub cmp_above {ℓ} :
    {K : Type ℓ} ⦃k : Key K⦄ (a b : K) → k.cmp a b ≡ Ordering.lt → k.cmp b a ≡ Ordering.gt
cmp_above ⦃k⦄ a b h = ground (arith, k.cmp_iff a b, k.cmp_iff b a, k.cmp_iff a a, k.cmp_trans a b a)

infix 1 if◌then◌else◌
abbrev pub if◌then◌else◌ {ℓ} : {A : Type ℓ} → Bool → A → A → A
if true then x else y = x
if false then x else y = y

pub Bool-cases : (b : Bool) → (b ≡ true) ⊎ (b ≡ false)
Bool-cases true = inl refl
Bool-cases false = inr refl

pub Option-cases {ℓ} : {A : Type ℓ} (o : Option A) → (o ≡ none) ⊎ ((a : A) × (o ≡ some a))
Option-cases none = inl refl
Option-cases (some a) = inr (a, refl)

abbrev pub has_value {ℓ} : {A : Type ℓ} → Option A → Bool
has_value none = false
has_value (some _) = true
