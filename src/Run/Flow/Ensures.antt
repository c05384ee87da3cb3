-- ===== src/Run/Flow/Ensures.antt =====
-- What a part of a run makes sure of, one rule for each way to build a part.
use langgraph_cpp.Prelude.{Result, ok, err, Status, Bool, true, false, ◌≡◌, refl, if◌then◌else◌}
use langgraph_cpp.Run.Flow.{
  Flow, proceeds, stops, Act, pure, leave, read, attempt, on_flow, ◌>>=◌, modify, when,
}

module _ {ℓ} {S R A : Type ℓ} (N : A → S → Type ℓ) (Q : S → R → Type ℓ) where
  -- `N` where the next part has its turn, `Q` where the run returns.
  abbrev pub Holds : S × Flow R A → Type ℓ
  Holds (s, proceeds a) = N a s
  Holds (s, stops r) = Q s r

-- From `P`, the part comes through to `N` or returns in `Q`.
pub record Ensures {ℓ} {S R A : Type ℓ} (P : S → Type ℓ) (N : A → S → Type ℓ) (Q : S → R → Type ℓ)
    (m : Act S R A) : Type ℓ where
  pub at : (s : S) → P s → Holds N Q (m s)

-- The part keeps `P`.
abbrev pub Keeps {ℓ} : {S R A : Type ℓ} → (S → Type ℓ) → (S → R → Type ℓ) → Act S R A → Type ℓ
Keeps P Q m = Ensures P (λ _. P) Q m

module _ {ℓ} {S R A : Type ℓ} {P : S → Type ℓ} {N : A → S → Type ℓ} {Q : S → R → Type ℓ} where
  pub Ensures-pure : (a : A) → ((s : S) → P s → N a s) → Ensures P N Q (pure a)
  unfolding pure
  Ensures-pure a h = record { at = h }

  pub Ensures-leave : (r : R) → ((s : S) → P s → Q s r) → Ensures P N Q (leave r)
  unfolding leave
  Ensures-leave r h = record { at = h }

  pub Ensures-read : (f : S → A) → ((s : S) → P s → N (f s) s) → Ensures P N Q (read f)
  unfolding read
  Ensures-read f h = record { at = h }

  pub Ensures-attempt :
      (r : Result A) (otherwise : Status → Act S R A)
      → ((a : A) → r ≡ ok a → (s : S) → P s → N a s)
      → ((e : Status) → Ensures P N Q (otherwise e))
      → Ensures P N Q (attempt r otherwise)
  unfolding attempt
  Ensures-attempt (ok a) otherwise k h = Ensures-pure a (k a refl)
  Ensures-attempt (err e) otherwise k h = h e

  pub Ensures-if :
      (b : Bool) (m n : Act S R A)
      → Ensures P N Q m
      → Ensures P N Q n
      → Ensures P N Q (if b then m else n)
  Ensures-if true m n k l = k
  Ensures-if false m n k l = l

module _ {S R A : Type 0} where
  trivial-Holds : (p : S × Flow R A) → Holds (λ _ _. Unit {0}) (λ _ _. Unit {0}) p
  trivial-Holds (s, proceeds a) = tt
  trivial-Holds (s, stops r) = tt

  nothing_known : {P : S → Type 0} (m : Act S R A) → Ensures P (λ _ _. Unit {0}) (λ _ _. Unit {0}) m
  nothing_known m = record { at = λ s p. trivial-Holds (m s) }

module _ {ℓ} {S R A : Type ℓ} {N N' : A → S → Type ℓ} where
  weaken-Holds :
      (Q : S → R → Type ℓ) (p : S × Flow R A)
      → ((a : A) (s : S) → N a s → N' a s)
      → Holds N Q p
      → Holds N' Q p
  weaken-Holds Q (s, proceeds a) w h = w a s h
  weaken-Holds Q (s, stops r) w h = h

  pub Ensures-weaken :
      {P : S → Type ℓ} {Q : S → R → Type ℓ} (m : Act S R A)
      → ((a : A) (s : S) → N a s → N' a s)
      → Ensures P N Q m
      → Ensures P N' Q m
  Ensures-weaken {Q} m w h = record { at = λ s p. weaken-Holds Q (m s) w (h.at s p) }

module _ {S R A : Type 0} where
  both-Holds :
      (N M : A → S → Type 0) (Q : S → R → Type 0) (p : S × Flow R A)
      → Holds N Q p
      → Holds M (λ _ _. Unit {0}) p
      → Holds (λ a s. N a s × M a s) Q p
  both-Holds N M Q (s, proceeds a) h k = (h, k)
  both-Holds N M Q (s, stops r) h k = h

  pub Ensures-both :
      {P : S → Type 0} {N M : A → S → Type 0} {Q : S → R → Type 0} (m : Act S R A)
      → Ensures P N Q m
      → Ensures P M (λ _ _. Unit {0}) m
      → Ensures P (λ a s. N a s × M a s) Q m
  Ensures-both {N} {M} {Q} m h k = record {
    at = λ s p. both-Holds N M Q (m s) (h.at s p) (k.at s p);
  }

module _ {ℓ} {S R A B : Type ℓ} {N : B → S → Type ℓ} {Q : S → R → Type ℓ} where
  on_flow-Holds :
      (M : A → S → Type ℓ) (p : S × Flow R A) (f : A → Act S R B)
      → Holds M Q p
      → ((a : A) → Ensures (M a) N Q (f a))
      → Holds N Q (on_flow p f)
  on_flow-Holds M (s, proceeds a) f h k = (k a).at s h
  on_flow-Holds M (s, stops r) f h k = h

  -- `M` is what holds between the two parts.
  pub Ensures-bind :
      {P : S → Type ℓ} (M : A → S → Type ℓ) (m : Act S R A) (f : A → Act S R B)
      → Ensures P M Q m
      → ((a : A) → Ensures (M a) N Q (f a))
      → Ensures P N Q (m >>= f)
  unfolding ◌>>=◌
  Ensures-bind M m f h k = record { at = λ s p. on_flow-Holds M (m s) f (h.at s p) k }

module _ {S R A B : Type 0} {P : S → Type 0} {N : B → S → Type 0} where
  -- The rest makes sure of `N` by itself.
  pub Ensures-after :
      (m : Act S R A) (f : A → Act S R B)
      → ((a : A) → Ensures (λ _. Unit {0}) N (λ _ _. Unit {0}) (f a))
      → Ensures P N (λ _ _. Unit {0}) (m >>= f)
  Ensures-after m f k = Ensures-bind (λ _ _. Unit {0}) m f (nothing_known m) k

module _ {S R : Type 0} {P : S → Type 0} {N : Unit {0} → S → Type 0} {Q : S → R → Type 0} where
  pub Ensures-modify : (f : S → S) → ((s : S) → P s → N tt (f s)) → Ensures P N Q (modify f)
  unfolding modify
  Ensures-modify f h = record { at = h }

  pub Ensures-when :
      (b : Bool) (m : Act S R (Unit {0}))
      → (b ≡ true → Ensures P N Q m)
      → (b ≡ false → (s : S) → P s → N tt s)
      → Ensures P N Q (when b m)
  unfolding when
  Ensures-when true m h k = h refl
  Ensures-when false m h k = Ensures-pure tt (k refl)

module _ {S R A : Type 0} where
  -- What does not depend on the members is kept by every part.
  known-Holds : (C : Type 0) (p : S × Flow R A) → C → Holds (λ _ _. C) (λ _ _. Unit) p
  known-Holds C (s, proceeds a) c = c
  known-Holds C (s, stops r) c = tt

  pub Keeps-known : (C : Type 0) (m : Act S R A) → Keeps (λ _. C) (λ _ _. Unit) m
  Keeps-known C m = record { at = λ s c. known-Holds C (m s) c }

module _ {ℓ} {S R A : Type ℓ} {P : S → Type ℓ} {Q : S → R → Type ℓ} where
  pub Keeps-pure : (a : A) → Keeps P Q (pure a)
  Keeps-pure a = Ensures-pure a (λ s h. h)

  pub Keeps-read : (f : S → A) → Keeps P Q (read f)
  Keeps-read f = Ensures-read f (λ s h. h)

  pub Keeps-attempt :
      (r : Result A) (otherwise : Status → Act S R A)
      → ((e : Status) → Keeps P Q (otherwise e))
      → Keeps P Q (attempt r otherwise)
  Keeps-attempt r otherwise h = Ensures-attempt r otherwise (λ a e s p. p) h

  pub Keeps-if :
      (b : Bool) (m n : Act S R A) → Keeps P Q m → Keeps P Q n → Keeps P Q (if b then m else n)
  Keeps-if b m n k l = Ensures-if b m n k l

module _ {ℓ} {S R A B : Type ℓ} {P : S → Type ℓ} {Q : S → R → Type ℓ} where
  pub Keeps-bind :
      (m : Act S R A) (f : A → Act S R B)
      → Keeps P Q m
      → ((a : A) → Keeps P Q (f a))
      → Keeps P Q (m >>= f)
  Keeps-bind m f h k = Ensures-bind (λ _. P) m f h k

module _ {S R : Type 0} {P : S → Type 0} {Q : S → R → Type 0} where
  pub Keeps-modify : (f : S → S) → ((s : S) → P s → P (f s)) → Keeps P Q (modify f)
  Keeps-modify f h = Ensures-modify f h

  pub Keeps-when : (b : Bool) (m : Act S R (Unit {0})) → Keeps P Q m → Keeps P Q (when b m)
  Keeps-when b m h = Ensures-when b m (λ e. h) (λ e s p. p)

pub ruleset keeps_rules =
    (Keeps-pure, Keeps-read, Keeps-attempt, Keeps-if, Keeps-bind, Keeps-modify, Keeps-when)
