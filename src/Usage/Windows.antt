-- ===== src/Usage/Windows.antt =====
-- `getUsageWindow` and `getRateLimitWindowStart` of src/modules/usage/usage.service.ts.
use hivepoint_backend.Common.{
  ℕ, ◌-◌, ◌≤◌, ◌<◌, ◌≡◌, Option, none, some, arith, ltb, leb, if◌then◌else◌, ◌⊎◌, ◌↔◌,
}
use hivepoint_backend.Schema.{SubscriptionStatus, Subscription}

-- `{gte: Date; lt: Date}`
pub record UsageWindow : Type 0 where
  pub gte : ℕ
  pub lt : ℕ

-- The end that applies to a subscription that is past due, and to any other one.
window_to : Option ℕ → ℕ → ℕ → Option UsageWindow
window_to none start occurred_at = none
window_to (some end) start occurred_at =
    if leb end occurred_at then none else some (record { gte = start; lt = end })

window_end : Subscription → Option ℕ
window_end s = elim s.status [
  | SubscriptionStatus.past_due ↦ s.grace_period_ends_at
  | _ ↦ s.current_period_end
]

window_from : Option ℕ → Subscription → ℕ → Option UsageWindow
unfolding window_to window_end
window_from none s occurred_at = none
window_from (some start) s occurred_at =
    if ltb occurred_at start then none else window_to (window_end s) start occurred_at

unfoldable pub get_usage_window : Subscription → ℕ → Option UsageWindow
unfolding window_from
get_usage_window s occurred_at = window_from s.current_period_start s occurred_at

-- RATE_LIMIT_WINDOW_SECONDS * 1000
abbrev pub rate_limit_window_ms : ℕ
rate_limit_window_ms = 60000

-- The subtraction stops at 1970, before any period starts.
unfoldable pub get_rate_limit_window_start : ℕ → ℕ → ℕ
get_rate_limit_window_start occurred_at period_start =
    if ltb period_start (occurred_at - rate_limit_window_ms)
    then occurred_at - rate_limit_window_ms
    else period_start

-- A window that is found starts with the current period and holds the date of the request.
pub get_usage_window_bounds :
    (s : Subscription) (occurred_at : ℕ) (w : UsageWindow)
    → get_usage_window s occurred_at ≡ some w
    → (s.current_period_start ≡ some w.gte) × (w.gte ≤ occurred_at) × (occurred_at < w.lt)
unfolding get_usage_window
get_usage_window_bounds s occurred_at w h = ground arith

-- A window is found exactly where the current period has started by the date of the request and the
-- end of access has not come: for a subscription that is PAST_DUE the end of its grace, for one of
-- any other status, a canceled one too, the end of the period. The window is from that start to
-- that end.
pub get_usage_window_iff :
    (s : Subscription) (occurred_at : ℕ) (w : UsageWindow)
    → (get_usage_window s occurred_at ≡ some w) ↔ (
        (s.current_period_start ≡ some w.gte)
        × (w.gte ≤ occurred_at)
        × (occurred_at < w.lt)
        × (((s.status ≡ SubscriptionStatus.past_due) × (s.grace_period_ends_at ≡ some w.lt))
            ⊎ ((s.status ≡ SubscriptionStatus.past_due → ⊥) × (s.current_period_end ≡ some w.lt))))
unfolding get_usage_window
get_usage_window_iff s occurred_at w = grind arith
