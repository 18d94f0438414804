-- ===== src/Usage/Tests.antt =====
-- A subscription that is past due has a window until its grace period ends.
use hivepoint_backend.Common.{
  ℕ, ◌+◌, ◌*◌, arith, refl, true, ◌≤◌, ◌<◌, ◌≡◌, ◌⊎◌, ◌↔◌, false, none, some,
}
use hivepoint_backend.Schema.{Plan, PlanPeriod, Subscription, SubscriptionStatus, BillingProvider}
use hivepoint_backend.Usage.Windows.{UsageWindow, get_usage_window, get_usage_window_iff}
use hivepoint_backend.Usage.Overage.{get_overage_state, get_overage_state_amount}

abbrev late : Subscription
late = record {
  id = 7;
  user_id = 2;
  plan_id = 5;
  payment_provider = BillingProvider.stripe;
  external_subscription_id = some "sub_1";
  status = SubscriptionStatus.past_due;
  current_period_start = some 1000;
  current_period_end = some 2000;
  grace_period_ends_at = some 5000;
  cancel_at_period_end = false;
  created_at = 0;
}

abbrev grace_window : UsageWindow
grace_window = record { gte = 1000; lt = 5000 }

get_usage_window_iff_example : (get_usage_window late 3000 ≡ some grace_window) ↔ (
    (late.current_period_start ≡ some 1000)
    × (1000 ≤ 3000)
    × (3000 < 5000)
    × (((late.status ≡ SubscriptionStatus.past_due) × (late.grace_period_ends_at ≡ some 5000))
        ⊎ ((late.status ≡ SubscriptionStatus.past_due → ⊥)
            × (late.current_period_end ≡ some 5000))))
get_usage_window_iff_example = get_usage_window_iff late 3000 grace_window

abbrev metered : Plan
metered = record {
  id = 5;
  product_id = 3;
  name = "metered";
  price_cents = 900;
  currency = "EUR";
  period = PlanPeriod.month;
  quota_requests = 10;
  rate_limit_rpm = none;
  allow_overage = true;
  overage_unit_requests = some 4;
  overage_price_cents = some 50;
  is_active = true;
}

get_overage_state_amount_example :
    (units : ℕ) × ((get_overage_state metered 17).projected_overage_amount_cents ≡ units * 50)
    × ((get_overage_state metered 17).overage_requests ≡ 7)
    × (7 ≤ units * 4)
    × (units * 4 < 7 + 4)
get_overage_state_amount_example =
    get_overage_state_amount metered 17 4 50 refl refl refl (omega arith) (omega arith)

seven_over : (get_overage_state metered 17).projected_overage_amount_cents ≡ 100
unfolding get_overage_state
seven_over = refl
