-- ===== src/Billing/Plans.antt =====
-- src/modules/billing/plans.service.ts: a seller adds a plan to a product. The overage part of
-- `createPlanSchema` of src/modules/billing/billing.schemas.ts, which every request has passed.
pub mod Created
mod Tests
use hivepoint_backend.Common.{
  ℕ, String, Bool, true, false, Option, none, some, List, ◌∷◌, ◌&&◌, ◌||◌, ◌==◌, not, or_else, leb,
  is_some, if◌then◌else◌,
}
use hivepoint_backend.Errors.{
  Result, ok, throw, app_error, prisma_error, product_not_found, not_owner, forbidden_role,
  bad_request,
}
use hivepoint_backend.Prisma.{Delegate, p2002}
use hivepoint_backend.Schema.{ApiProduct, Plan, PlanPeriod, Role, clash_product, clash_plan}
use hivepoint_backend.Billing.Subscriptions.{User}
use hivepoint_backend.Catalog.Products.{is_admin, product_with_id}

-- `CreatePlanInput`; none is undefined.
pub record CreatePlanInput : Type 0 where
  pub product_id : ℕ
  pub name : String
  pub price_cents : ℕ
  pub currency : Option String
  pub period : Option PlanPeriod
  pub quota_requests : ℕ
  pub rate_limit_rpm : Option ℕ
  pub allow_overage : Option Bool
  pub overage_unit_requests : Option ℕ
  pub overage_price_cents : Option ℕ
  pub is_active : Option Bool

-- `.min(1).optional()`
abbrev pub is_positive_or_undefined : Option ℕ → Bool
is_positive_or_undefined none = true
is_positive_or_undefined (some n) = leb 1 n

-- What the schema asks of the overage fields: `.min(1)` of each, and the issues of `superRefine`.
unfoldable pub has_valid_overage : CreatePlanInput → Bool
has_valid_overage input =
    is_positive_or_undefined input.overage_unit_requests
    && (is_positive_or_undefined input.overage_price_cents
        && (if or_else input.allow_overage false
            then is_some input.overage_unit_requests && is_some input.overage_price_cents
            else not (is_some input.overage_unit_requests || is_some input.overage_price_cents)))

-- The result of `resolveOverageConfig`.
pub record OverageConfig : Type 0 where
  pub allow_overage : Bool
  pub overage_unit_requests : Option ℕ
  pub overage_price_cents : Option ℕ

unfoldable pub resolve_overage_config : CreatePlanInput → Result OverageConfig
resolve_overage_config input =
    let allow_overage = or_else input.allow_overage false in
    let has_overage_fields =
      is_some input.overage_unit_requests || is_some input.overage_price_cents in
    if not allow_overage
    then (if has_overage_fields
        then throw (app_error bad_request 400)
        else ok (record {
          allow_overage = false;
          overage_unit_requests = none;
          overage_price_cents = none;
        }))
    else if not (is_some input.overage_unit_requests) || not (is_some input.overage_price_cents)
    then throw (app_error bad_request 400)
    else ok (record {
      allow_overage = true;
      overage_unit_requests = input.overage_unit_requests;
      overage_price_cents = input.overage_price_cents;
    })

abbrev pub is_seller : Role → Bool
is_seller r = elim r [ Role.seller ↦ true | _ ↦ false ]

-- The row of `plan.create`.
abbrev pub new_plan : ℕ → CreatePlanInput → OverageConfig → Plan
new_plan new_id input overage = record {
  id = new_id;
  product_id = input.product_id;
  name = input.name;
  price_cents = input.price_cents;
  currency = or_else input.currency "EUR";
  period = or_else input.period PlanPeriod.month;
  quota_requests = input.quota_requests;
  rate_limit_rpm = input.rate_limit_rpm;
  allow_overage = overage.allow_overage;
  overage_unit_requests = overage.overage_unit_requests;
  overage_price_cents = overage.overage_price_cents;
  is_active = or_else input.is_active true;
}

module _ (product_client : Delegate clash_product) (plan_client : Delegate clash_plan) where
  -- `new_id` is the id that the database draws.
  unfoldable pub create_plan :
      ℕ → CreatePlanInput → User → List ApiProduct → List Plan → Result (Plan × List Plan)
  create_plan new_id input user products plans =
      if not (is_seller user.role) && not (is_admin user.role)
      then throw (app_error forbidden_role 403)
      else elim (product_client.find_unique (product_with_id input.product_id) products) [
        | none ↦ throw (app_error product_not_found 404)
        | some product ↦
            if is_seller user.role && not (product.owner_id == user.id)
            then throw (app_error not_owner 403)
            else elim (resolve_overage_config input) [
              | throw e ↦ throw e
              | ok overage ↦
                  let plan = new_plan new_id input overage in
                  elim (plan_client.create plan plans) [
                    | none ↦ throw (prisma_error p2002)
                    | some created ↦ ok (plan, created)
                  ]
            ]
      ]
