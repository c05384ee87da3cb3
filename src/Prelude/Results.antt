-- ===== src/Prelude/Results.antt =====
-- Status and Result of src/foundation/status: a result carries a value, or a status that is not ok.
use mathlib.Core.Path.{◌≡◌, refl, subst}
use mathlib.Core.Bool.{Bool, true, false}
use mathlib.Core.Logic.{◌⊎◌, inl, inr}
use mathlib.Core.Option.{Option, none, some}
use Prim.Native.String.{String, ◌++◌}
use langgraph_cpp.Prelude.Tests.{◌==◌, text_key, if◌then◌else◌}

pub data StatusCode : Type 0 where
  cancelled unknown invalid_argument deadline_exceeded not_found already_exists : StatusCode
  permission_denied resource_exhausted failed_precondition aborted out_of_range : StatusCode
  unimplemented internal unavailable data_loss unauthenticated : StatusCode

-- A status that is not ok.
pub record Status : Type 0 where
  pub code : StatusCode
  pub message : String

pub data Result {ℓv} (V : Type ℓv) : Type ℓv where
  ok : V → Result V
  err : Status → Result V

infixl 5 ◌>>=◌ ◌>>◌
-- `if (!result.isOk()) return result.status();` before the rest.
abbrev pub ◌>>=◌ {ℓa ℓb} : {V : Type ℓa} {W : Type ℓb} → Result V → (V → Result W) → Result W
err problem >>= next = err problem
ok value >>= next = next value

abbrev pub ◌>>◌ {ℓb} : {W : Type ℓb} → Result (Unit {0}) → Result W → Result W
check >> next = check >>= λ _. next

-- A message that ends in the name it is about.
abbrev pub labelled : String → String → String
labelled message name = message ++ name

-- `statusCodeName`
pub code_name : StatusCode → String
code_name cancelled = "cancelled"
code_name unknown = "unknown"
code_name invalid_argument = "invalid_argument"
code_name deadline_exceeded = "deadline_exceeded"
code_name not_found = "not_found"
code_name already_exists = "already_exists"
code_name permission_denied = "permission_denied"
code_name resource_exhausted = "resource_exhausted"
code_name failed_precondition = "failed_precondition"
code_name aborted = "aborted"
code_name out_of_range = "out_of_range"
code_name unimplemented = "unimplemented"
code_name internal = "internal"
code_name unavailable = "unavailable"
code_name data_loss = "data_loss"
code_name unauthenticated = "unauthenticated"

-- `Status::toString`
unfoldable pub status_text : Status → String
unfolding code_name
status_text s =
    if s.message == ""
    then code_name s.code
    else labelled (labelled (code_name s.code) ": ") s.message

abbrev pub fail {ℓ} : {A : Type ℓ} → StatusCode → String → Result A
fail c m = err (record { code = c; message = m })

-- `if (test) return Status…;`
abbrev pub fail_if : Bool → StatusCode → String → Result (Unit {0})
fail_if true c m = fail c m
fail_if false c m = ok tt

-- The value, or the status when there is none.
abbrev pub or_fail {ℓ} : {A : Type ℓ} → Option A → StatusCode → String → Result A
or_fail none c m = fail c m
or_fail (some a) c m = ok a

-- Where the whole succeeds, so do its two parts.
pub >>=-eq-ok {ℓa ℓb} :
    {V : Type ℓa} {W : Type ℓb} (first : Result V) (next : V → Result W) {last : W}
    → (first >>= next) ≡ ok last
    → (v : V) × (first ≡ ok v) × (next v ≡ ok last)
>>=-eq-ok (err problem) next e = cc
>>=-eq-ok (ok v) next e = (v, refl, e)

-- A guard goes through exactly when its test fails.
pub fail_if-eq-ok {ℓ} :
    {B : Type ℓ} (b : Bool) (c : StatusCode) (m : String) (k : Result B) {r : B}
    → (fail_if b c m >> k) ≡ ok r
    → (b ≡ false) × (k ≡ ok r)
fail_if-eq-ok true c m k e = cc
fail_if-eq-ok false c m k e = (refl, e)

pub Result-cases {ℓ} :
    {A : Type ℓ} (r : Result A) → ((e : Status) × (r ≡ err e)) ⊎ ((a : A) × (r ≡ ok a))
Result-cases (ok a) = inr (a, refl)
Result-cases (err e) = inl (e, refl)

pub ok-injective {ℓ} : {A : Type ℓ} {a b : A} → ok a ≡ ok b → a ≡ b
ok-injective e = cc

-- What holds of a result's value, when there is one.
abbrev pub OnOk {ℓ κ} : {A : Type ℓ} → (A → Type κ) → Result A → Type κ
OnOk P (ok a) = P a
OnOk P (err e) = Unit

pub OnOk-bind {ℓ κ ℓ' κ'} :
    {A : Type ℓ} {B : Type ℓ'} (P : A → Type κ) (Q : B → Type κ') (m : Result A) (f : A → Result B)
    → OnOk P m
    → ((a : A) → P a → OnOk Q (f a))
    → OnOk Q (m >>= f)
OnOk-bind P Q (ok a) f h k = k a h
OnOk-bind P Q (err e) f h k = tt

pub OnOk-then {ℓ κ} :
    {B : Type ℓ} (Q : B → Type κ) (m : Result (Unit {0})) (k : Result B)
    → OnOk Q k
    → OnOk Q (m >> k)
OnOk-then Q (ok u) k h = h
OnOk-then Q (err e) k h = tt

pub OnOk-eq {ℓ κ} : {A : Type ℓ} (P : A → Type κ) (m : Result A) (a : A) → OnOk P m → m ≡ ok a → P a
OnOk-eq P (ok b) a h e = subst P (ok-injective e) h
OnOk-eq P (err s) a h e = cc
