-- ===== src/Usage/Overage.antt =====
-- `getOverageState` and `toAuthorizeOverageState` of src/modules/usage/usage.service.ts.
use hivepoint_backend.Common.{
  ℕ, ◌≡◌, ◌≤◌, ◌<◌, arith, Bool-cases, inl, inr, ◌+◌, ◌-◌, ◌*◌, ◌/◌, Bool, true, Option, none, some,
  ◌||◌, not, leb, ◌==◌, or_else, if◌then◌else◌,
}
use hivepoint_backend.Schema.{Plan}

pub record OverageState : Type 0 where
  pub overage_enabled : Bool
  pub overage_unit_requests : Option ℕ
  pub overage_price_cents : Option ℕ
  pub overage_requests : ℕ
  pub projected_overage_amount_cents : ℕ

-- `!n` of a nullable number: null and 0 are falsy.
abbrev pub is_zero_or_null : Option ℕ → Bool
is_zero_or_null none = true
is_zero_or_null (some n) = n == 0

-- `Math.ceil(a / b)`, for b > 0
abbrev pub ceil_div : ℕ → ℕ → ℕ
ceil_div a b = (a + b - 1) / b

unfoldable pub get_overage_state : Plan → ℕ → OverageState
get_overage_state plan used_requests =
    if not plan.allow_overage
      || (is_zero_or_null plan.overage_unit_requests
          || (is_zero_or_null plan.overage_price_cents || leb used_requests plan.quota_requests))
    then (record {
      overage_enabled = plan.allow_overage;
      overage_unit_requests = plan.overage_unit_requests;
      overage_price_cents = plan.overage_price_cents;
      overage_requests = 0;
      projected_overage_amount_cents = 0;
    })
    else (let overage_requests = used_requests - plan.quota_requests in
        let billed_units = ceil_div overage_requests (or_else plan.overage_unit_requests 0) in
        record {
          overage_enabled = plan.allow_overage;
          overage_unit_requests = plan.overage_unit_requests;
          overage_price_cents = plan.overage_price_cents;
          overage_requests = overage_requests;
          projected_overage_amount_cents = billed_units * or_else plan.overage_price_cents 0;
        })

-- The rounded quotient covers, and by less than one unit.
pub ceil_div_bounds : (a b : ℕ) → 0 < b → (a ≤ ceil_div a b * b) × (ceil_div a b * b < a + b)
ceil_div_bounds a b h = (grind arith, grind arith)

-- Where a plan sells overage by positive units of `unit` requests at a positive `price`, whole
-- units are billed: they cover the requests over the quota, with less than a unit to spare.
pub get_overage_state_amount :
    (plan : Plan) (used unit price : ℕ)
    → plan.allow_overage ≡ true
    → plan.overage_unit_requests ≡ some unit
    → plan.overage_price_cents ≡ some price
    → 0 < unit
    → 0 < price
    → (units : ℕ) × ((get_overage_state plan used).projected_overage_amount_cents ≡ units * price)
      × ((get_overage_state plan used).overage_requests ≡ used - plan.quota_requests)
      × (used - plan.quota_requests ≤ units * unit)
      × (units * unit < used - plan.quota_requests + unit)
unfolding get_overage_state
get_overage_state_amount plan used unit price allowed by_unit at_price h k =
    let over = used - plan.quota_requests in
    let (covers, spare) = ceil_div_bounds over unit h in
    elim (Bool-cases (leb used plan.quota_requests)) [
      | inl within ↦ (
        0,
        ground (arith, within),
        ground (arith, within),
        ground (arith, within),
        ground (arith, within, h),
      )
      | inr exceeds ↦ (
        ceil_div over unit,
        ground (arith, exceeds, allowed, by_unit, at_price, h, k),
        ground (arith, exceeds, allowed, by_unit, at_price, h, k),
        covers,
        spare,
      )
    ]
