-- ===== src/Billing/Retry/Schedule.antt =====
-- The schedule of managed retries: dates that move on, an end, and as many attempts as delays.
use hivepoint_backend.Common.{
  ℕ, zero, suc, ◌+◌, ◌-◌, ◌*◌, ◌≤◌, ◌<◌, ◌≡◌, ◌⊎◌, refl, ap, ◌∙◌, Option, none, some, List, [], ◌∷◌,
  String, get_elem?, length, All, arith, inl, inr, Option-cases,
}
use hivepoint_backend.Schema.{ManagedRetryState}
use hivepoint_backend.Billing.Retry.{
  resolve_managed_retry_at, create_initial_managed_retry_state,
  create_managed_retry_state_after_attempt, null_if_some, retries,
}

-- A schedule is open, with a date after `t`, or it was exhausted at `t`.
pub data IsScheduled (t : ℕ) (s : ManagedRetryState) : Type 0 where
  open_until :
      (date : ℕ)
      → t < date
      → s.managed_next_retry_at ≡ some date
      → s.managed_retry_exhausted_at ≡ none
      → IsScheduled t s
  exhausted :
      s.managed_next_retry_at ≡ none → s.managed_retry_exhausted_at ≡ some t → IsScheduled t s

-- Among positive delays there is one at a position exactly where the position is in the list.
delay_at :
    (delays : List ℕ) (k : ℕ)
    → All (λ d. 0 < d) delays
    → ((get_elem? delays k ≡ none) × (length delays ≤ k))
      ⊎ ((d : ℕ) × (get_elem? delays k ≡ some d) × (0 < d) × (k < length delays))
delay_at [] k p = inl (refl, omega arith)
delay_at (d ∷ delays) zero p = inr (d, refl, p.0, omega arith)
delay_at (d ∷ delays) (suc k) p = elim (delay_at delays k p.1) [
  | inl (past, long) ↦ inl (past, omega arith)
  | inr (e, there, some_delay, short) ↦ inr (e, there, some_delay, omega arith)
]

module _ (delays : List ℕ) where
  -- The date of the next attempt, if there is one to make.
  resolve_cases :
      (k t : ℕ)
      → All (λ d. 0 < d) delays
      → ((resolve_managed_retry_at k t delays ≡ none) × (length delays ≤ k))
        ⊎ ((date : ℕ) × (resolve_managed_retry_at k t delays ≡ some date) × (k < length delays))
  unfolding resolve_managed_retry_at
  resolve_cases k t p = elim (delay_at delays k p) [
    | inl (past, long) ↦ inl (ground (arith, past), long)
    | inr (d, there, positive, short) ↦ inr (t + d * 60 * 1000, ground (arith, there), short)
  ]

  resolve_later : (k t date : ℕ) → resolve_managed_retry_at k t delays ≡ some date → t < date
  unfolding resolve_managed_retry_at
  resolve_later k t date h = ground arith

  scheduled :
      (k t : ℕ) (s : ManagedRetryState)
      → s.managed_next_retry_at ≡ resolve_managed_retry_at k t delays
      → s.managed_retry_exhausted_at ≡ null_if_some (resolve_managed_retry_at k t delays) t
      → IsScheduled t s
  scheduled k t s h e = elim (Option-cases (resolve_managed_retry_at k t delays)) [
    | inl over ↦ exhausted (ground (arith, over)) (ground (arith, over))
    | inr (date, again) ↦
        open_until date (resolve_later k t date again) (ground (arith, again))
          (ground (arith, again))
  ]

  -- At the first failure, and after each attempt that fails, the schedule is open with a later date
  -- and not exhausted, or it is exhausted at that moment with no date.
  pub after_attempt-IsScheduled :
      (count t : ℕ) (message : Option String)
      → IsScheduled t (create_initial_managed_retry_state t delays)
        × IsScheduled t (create_managed_retry_state_after_attempt count t delays message)
  unfolding create_managed_retry_state_after_attempt create_initial_managed_retry_state
  after_attempt-IsScheduled count t message =
      (scheduled 0 t _ refl refl, scheduled (count + 1) t _ refl refl)

  -- The attempts that are left to a state that has made `k`.
  retries-left :
      (fuel k t : ℕ) (s : ManagedRetryState)
      → s.managed_retry_count ≡ k
      → s.managed_next_retry_at ≡ resolve_managed_retry_at k t delays
      → All (λ d. 0 < d) delays
      → length delays - k ≤ fuel
      → retries fuel delays s ≡ length delays - k
  unfolding retries create_managed_retry_state_after_attempt
  retries-left zero k t s c h p f = omega arith
  retries-left (suc fuel) k t s c h p f = elim (resolve_cases k t p) [
    | inl (over, long) ↦ rw (h ∙ over, retries) (omega arith)
    | inr (date, again, short) ↦
        let count = s.managed_retry_count in
        let next = create_managed_retry_state_after_attempt count date delays none in
        let one_more : count + 1 ≡ k + 1 = ap (λ (n : ℕ). n + 1) c in
        rw (h ∙ again, retries)
          (omega (
            arith,
            retries-left fuel (k + 1) date next one_more
                (ap (λ (n : ℕ). resolve_managed_retry_at n date delays) one_more) p (omega arith),
          ))
  ]

  -- Where all delays are positive, a renewal that keeps failing is retried exactly once for each
  -- of them: followed for at least as many attempts, the schedule makes that number and no more.
  pub retries-eq-length :
      (fuel t : ℕ)
      → All (λ d. 0 < d) delays
      → length delays ≤ fuel
      → retries fuel delays (create_initial_managed_retry_state t delays) ≡ length delays
  unfolding create_initial_managed_retry_state
  retries-eq-length fuel t p f =
      let first = create_initial_managed_retry_state t delays in
      omega (arith, retries-left fuel 0 t first refl refl p (omega arith))
