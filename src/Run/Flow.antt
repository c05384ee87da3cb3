-- ===== src/Run/Flow.antt =====
-- How the parts of `GraphRun::run` follow one another: a part changes the run's members, and then
-- the next one has its turn, or the run returns.
pub mod Ensures
use langgraph_cpp.Prelude.{Result, ok, err, Status, Bool, true, false}

pub data Flow {ℓ} (R A : Type ℓ) : Type ℓ where
  proceeds : A → Flow R A
  stops : R → Flow R A

-- A part of a run over the members `S`, with `R` what the run returns.
abbrev pub Act {ℓ} : Type ℓ → Type ℓ → Type ℓ → Type ℓ
Act S R A = S → S × Flow R A

module _ {ℓ} {S R A : Type ℓ} where
  unfoldable pub pure : A → Act S R A
  pure a s = (s, proceeds a)

  -- `return r;`
  unfoldable pub leave : R → Act S R A
  leave r s = (s, stops r)

  unfoldable pub read : (S → A) → Act S R A
  read f s = (s, proceeds (f s))

  -- `if (!r.isOk()) …`
  unfoldable pub attempt : Result A → (Status → Act S R A) → Act S R A
  attempt (ok a) otherwise = pure a
  attempt (err e) otherwise = otherwise e

module _ {ℓ} {S R A B : Type ℓ} where
  abbrev pub on_flow : S × Flow R A → (A → Act S R B) → S × Flow R B
  on_flow (s, proceeds a) f = f a s
  on_flow (s, stops r) f = (s, stops r)

  infixl 5 ◌>>=◌ ◌>>◌
  unfoldable pub ◌>>=◌ : Act S R A → (A → Act S R B) → Act S R B
  ◌>>=◌ m f s = on_flow (m s) f

  abbrev pub ◌>>◌ : Act S R A → Act S R B → Act S R B
  m >> n = m >>= λ _. n

module _ {S R : Type 0} where
  unfoldable pub modify : (S → S) → Act S R (Unit {0})
  modify f s = (f s, proceeds tt)

  -- The part is left out when the test fails.
  unfoldable pub when : Bool → Act S R (Unit {0}) → Act S R (Unit {0})
  when true m = m
  when false m = pure tt
