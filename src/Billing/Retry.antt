-- ===== src/Billing/Retry.antt =====
-- src/modules/billing/billing-managed-retry.policy.ts, with `hasManagedRetryState` of
-- src/modules/billing/subscriptions.service.ts.
pub mod Schedule
use hivepoint_backend.Common.{
  ℕ, zero, suc, ◌+◌, ◌-◌, ◌*◌, ◌≤◌, ◌<◌, ◌≡◌, refl, String, Bool, true, false, Option, none, some,
  List, [], ◌∷◌, ltb, ◌||◌, ◌==◌, is_some, is_truthy, get_elem?, length, arith, if◌then◌else◌, ◌↔◌,
  ◌⊎◌, inl, inr,
}
use hivepoint_backend.Schema.{ManagedRetryState}

unfoldable pub clear_managed_retry_state : ManagedRetryState
clear_managed_retry_state = record {
  managed_retry_count = 0;
  managed_next_retry_at = none;
  managed_last_retry_at = none;
  managed_retry_exhausted_at = none;
  managed_last_retry_error = none;
}

-- `delayMinutes[retryCount]`: undefined behind the end, and 0 is falsy too.
delay_from : Option ℕ → ℕ → Option ℕ
delay_from none reference_time = none
delay_from (some delay) reference_time =
    if delay == 0 then none else some (reference_time + delay * 60 * 1000)

unfoldable pub resolve_managed_retry_at : ℕ → ℕ → List ℕ → Option ℕ
unfolding delay_from
resolve_managed_retry_at retry_count reference_time delay_minutes =
    delay_from (get_elem? delay_minutes retry_count) reference_time

-- `nextRetryAt ? null : t`, where a date is never falsy
abbrev pub null_if_some : Option ℕ → ℕ → Option ℕ
null_if_some none t = some t
null_if_some (some _) t = none

unfoldable pub create_initial_managed_retry_state : ℕ → List ℕ → ManagedRetryState
unfolding resolve_managed_retry_at
create_initial_managed_retry_state reference_time delay_minutes =
    let next_retry_at = resolve_managed_retry_at 0 reference_time delay_minutes in
    record {
      managed_retry_count = 0;
      managed_next_retry_at = next_retry_at;
      managed_last_retry_at = none;
      managed_retry_exhausted_at = null_if_some next_retry_at reference_time;
      managed_last_retry_error = none;
    }

unfoldable pub create_managed_retry_state_after_attempt :
    ℕ → ℕ → List ℕ → Option String → ManagedRetryState
unfolding resolve_managed_retry_at
create_managed_retry_state_after_attempt current_retry_count attempted_at delay_minutes message =
    let next_retry_count = current_retry_count + 1 in
    let next_retry_at = resolve_managed_retry_at next_retry_count attempted_at delay_minutes in
    record {
      managed_retry_count = next_retry_count;
      managed_next_retry_at = next_retry_at;
      managed_last_retry_at = some attempted_at;
      managed_retry_exhausted_at = null_if_some next_retry_at attempted_at;
      managed_last_retry_error = message;
    }

unfoldable pub has_managed_retry_state : ManagedRetryState → Bool
has_managed_retry_state s =
    ltb 0 s.managed_retry_count
    || (is_some s.managed_next_retry_at
        || (is_some s.managed_last_retry_at
            || (is_some s.managed_retry_exhausted_at || is_truthy s.managed_last_retry_error)))

-- The retries that are made one after another, each at its date, from a state on, until the
-- schedule is exhausted. `fuel` bounds the number of attempts that are followed.
pub retries : ℕ → List ℕ → ManagedRetryState → ℕ
retries zero delays s = 0
retries (suc fuel) delays s = elim s.managed_next_retry_at [
  | none ↦ 0
  | some date ↦ suc (
      retries fuel delays
        (create_managed_retry_state_after_attempt s.managed_retry_count date delays none))
]
