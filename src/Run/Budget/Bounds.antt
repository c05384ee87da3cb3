-- ===== src/Run/Budget/Bounds.antt =====
-- The usage of a budget over a sequence of operations.
use langgraph_cpp.Prelude.{
  ℕ, sym, ◌+◌, ◌-◌, ◌^◌, ◌≤◌, ◌<◌, ◌≡◌, refl, ap, ◌∙◌, max, String, Bool, Option, none, some, ok,
  ltb, arith, >>=-eq-ok, fail_if-eq-ok, ok-injective, subst, false, suc,
}
use langgraph_cpp.Run.Budget.{
  ResourceLimits, ResourceUsage, no_usage, within, within_steps, within_retries, check_memory,
  check, check_step, check_retry, consume_step, consume_retry, record_memory,
}

abbrev pub IsWithin : Option ℕ → ℕ → Type 0
IsWithin none n = Unit
IsWithin (some limit) n = n ≤ limit

within-IsWithin :
    (message : String) (limit : Option ℕ) (n : ℕ)
    → within message limit n ≡ ok tt
    → IsWithin limit n
unfolding within
within-IsWithin message none n e = tt
within-IsWithin message (some limit) n e = ground (arith, e)

max-IsWithin :
    (limit : Option ℕ) (a b : ℕ) → IsWithin limit a → IsWithin limit b → IsWithin limit (max a b)
max-IsWithin none a b h k = tt
max-IsWithin (some limit) a b h k = omega (arith, h, k)

zero-IsWithin : (limit : Option ℕ) → IsWithin limit 0
zero-IsWithin none = tt
zero-IsWithin (some limit) = omega arith

-- The number of steps that no run goes beyond.
abbrev pub step_ceiling : Option ℕ → ℕ
step_ceiling none = 2 ^ 64 - 1
step_ceiling (some limit) = limit

within-ceiling : (limit : Option ℕ) (n : ℕ) → IsWithin limit n → n < 2 ^ 64 → n ≤ step_ceiling limit
within-ceiling none n h k = omega (arith, k)
within-ceiling (some limit) n h k = h

-- A step that the budget grants is counted, and stays below the ceiling.
pub consume_step-ceiling :
    (limits : ResourceLimits) (expired : Bool) (u u' : ResourceUsage)
    → consume_step limits 1 expired u u ≡ ok u'
    → (u'.steps ≡ u.steps + 1) × (u.steps + 1 ≤ step_ceiling limits.max_steps)
unfolding consume_step check_step within_steps
consume_step-ceiling limits expired u u' e =
    let (c, checked, e2) = >>=-eq-ok (check limits expired u) _ e in
    let (s, stepped, e3) = >>=-eq-ok (check_step limits 1 u) _ e2 in
    let (fits, inside) =
      fail_if-eq-ok (ltb (2 ^ 64 - 1 - u.steps) 1) _ _ (within_steps limits (u.steps + 1))
        stepped in
    let small : u.steps + 1 < 2 ^ 64 = ground (arith, fits) in
    (
      sym (ap (λ w. w.steps) (ok-injective e3)),
      within-ceiling limits.max_steps (u.steps + 1)
          (within-IsWithin _ limits.max_steps (u.steps + 1) inside) small,
    )

room : (top n amount : ℕ) → ltb (top - n) amount ≡ false → n < suc top → n + amount < suc top
room top n amount e b = ground arith

module _ (limits : ResourceLimits) where
  -- The counters are within their limits and their bits, and the peak is no less than the present
  -- use.
  abbrev pub IsValid : ResourceUsage → Type 0
  IsValid u =
      IsWithin limits.max_steps u.steps
      × IsWithin limits.max_retries u.retries
      × IsWithin limits.max_memory_bytes u.memory_bytes
      × IsWithin limits.max_memory_bytes u.peak_memory_bytes
      × (u.steps < 2 ^ 64)
      × (u.retries < 2 ^ 32)
      × (u.memory_bytes ≤ u.peak_memory_bytes)

  check_step-ok :
      (amount : ℕ) (u : ResourceUsage)
      → u.steps < 2 ^ 64
      → check_step limits amount u ≡ ok tt
      → IsWithin limits.max_steps (u.steps + amount) × (u.steps + amount < 2 ^ 64)
  unfolding check_step within_steps
  check_step-ok amount u b e =
      let (fits, inside) = fail_if-eq-ok _ _ _ _ e in
      (
        within-IsWithin _ limits.max_steps (u.steps + amount) inside,
        room (2 ^ 64 - 1) u.steps amount fits b,
      )

  consume_step-IsValid :
      (amount : ℕ) (expired : Bool) (seen u u' : ResourceUsage)
      → IsValid u
      → consume_step limits amount expired seen u ≡ ok u'
      → IsValid u' × (u'.steps ≡ u.steps + amount)
  unfolding consume_step
  consume_step-IsValid amount expired seen u u' v e =
      let (c, checked, e2) = >>=-eq-ok (check limits expired seen) _ e in
      let (s, stepped, e3) = >>=-eq-ok (check_step limits amount u) _ e2 in
      let (inside, room) = check_step-ok amount u v.4 stepped in
      subst (λ w. IsValid w × (w.steps ≡ u.steps + amount)) (ok-injective e3)
        ((inside, v.1, v.2, v.3, room, v.5, v.6), refl)

  check_retry-ok :
      (amount : ℕ) (u : ResourceUsage)
      → u.retries < 2 ^ 32
      → check_retry limits amount u ≡ ok tt
      → IsWithin limits.max_retries (u.retries + amount) × (u.retries + amount < 2 ^ 32)
  unfolding check_retry within_retries
  check_retry-ok amount u b e =
      let (fits, inside) = fail_if-eq-ok _ _ _ _ e in
      (
        within-IsWithin _ limits.max_retries (u.retries + amount) inside,
        room (2 ^ 32 - 1) u.retries amount fits b,
      )

  consume_retry-IsValid :
      (amount : ℕ) (expired : Bool) (seen u u' : ResourceUsage)
      → IsValid u
      → consume_retry limits amount expired seen u ≡ ok u'
      → IsValid u' × (u'.steps ≡ u.steps)
  unfolding consume_retry
  consume_retry-IsValid amount expired seen u u' v e =
      let (c, checked, e2) = >>=-eq-ok (check limits expired seen) _ e in
      let (s, stepped, e3) = >>=-eq-ok (check_retry limits amount u) _ e2 in
      let (inside, room) = check_retry-ok amount u v.5 stepped in
      subst (λ w. IsValid w × (w.steps ≡ u.steps)) (ok-injective e3)
        ((v.0, inside, v.2, v.3, v.4, room, v.6), refl)

  record_memory-IsValid :
      (bytes : ℕ) (expired : Bool) (seen u u' : ResourceUsage)
      → IsValid u
      → record_memory limits bytes expired seen u ≡ ok u'
      → IsValid u' × (u'.steps ≡ u.steps)
  unfolding record_memory check_memory
  record_memory-IsValid bytes expired seen u u' v e =
      let (c, checked, e2) = >>=-eq-ok (check limits expired seen) _ e in
      let (s, small, e3) = >>=-eq-ok (check_memory limits bytes) _ e2 in
      let inside = within-IsWithin _ limits.max_memory_bytes bytes small in
      let peak = max-IsWithin limits.max_memory_bytes u.peak_memory_bytes bytes v.3 inside in
      subst (λ w. IsValid w × (w.steps ≡ u.steps)) (ok-injective e3)
        ((v.0, v.1, inside, peak, v.4, v.5, omega arith), refl)

  -- The usages that operations which are not refused lead to, whatever their checks have seen.
  pub data Spent : ℕ → ResourceUsage → Type 0 where
    fresh : Spent 0 no_usage
    by_step :
        {n : ℕ} {u u' : ResourceUsage} (amount : ℕ) (expired : Bool) (seen : ResourceUsage)
        → Spent n u
        → consume_step limits amount expired seen u ≡ ok u'
        → Spent (n + amount) u'
    by_retry :
        {n : ℕ} {u u' : ResourceUsage} (amount : ℕ) (expired : Bool) (seen : ResourceUsage)
        → Spent n u
        → consume_retry limits amount expired seen u ≡ ok u'
        → Spent n u'
    by_memory :
        {n : ℕ} {u u' : ResourceUsage} (bytes : ℕ) (expired : Bool) (seen : ResourceUsage)
        → Spent n u
        → record_memory limits bytes expired seen u ≡ ok u'
        → Spent n u'

  -- After any operations on a new budget that are not refused, whatever usage their checks have
  -- seen: every count is within its limit and its bits, the peak is within the memory limit and no
  -- less than the present use, and the steps counted are exactly those consumed.
  pub Spent-IsValid : (n : ℕ) (u : ResourceUsage) → Spent n u → IsValid u × (u.steps ≡ n)
  Spent-IsValid _ _ fresh = (
    (
      zero-IsWithin limits.max_steps,
      zero-IsWithin limits.max_retries,
      zero-IsWithin limits.max_memory_bytes,
      zero-IsWithin limits.max_memory_bytes,
      omega arith,
      omega arith,
      omega arith,
    ),
    refl,
  )
  Spent-IsValid _ _ (by_step {n} {u} {u' = w} amount expired seen r e) =
      let (v, count) = Spent-IsValid n u r in
      let (valid, more) = consume_step-IsValid amount expired seen u w v e in
      (valid, more ∙ ap (λ k. k + amount) count)
  Spent-IsValid _ _ (by_retry {n} {u} {u' = w} amount expired seen r e) =
      let (v, count) = Spent-IsValid n u r in
      let (valid, same) = consume_retry-IsValid amount expired seen u w v e in (valid, same ∙ count)
  Spent-IsValid _ _ (by_memory {n} {u} {u' = w} bytes expired seen r e) =
      let (v, count) = Spent-IsValid n u r in
      let (valid, same) = record_memory-IsValid bytes expired seen u w v e in (valid, same ∙ count)
