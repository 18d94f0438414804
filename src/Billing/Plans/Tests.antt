-- ===== src/Billing/Plans/Tests.antt =====
-- A seller adds a plan whose overage is sold by ten requests.
use hivepoint_backend.Common.{◌≡◌, refl, true, none, some, [], ◌∷◌, ltb, arith}
use hivepoint_backend.Errors.{ok, throw, app_error, not_owner}
use hivepoint_backend.Prisma.Lists.{list_delegate}
use hivepoint_backend.Schema.{ApiProduct, ProductStatus, Plan, Role, clash_product, clash_plan}
use hivepoint_backend.Billing.Subscriptions.{User}
use hivepoint_backend.Billing.Fixtures.{plan}
use hivepoint_backend.Billing.OverageCollection.{build_settlement}
use hivepoint_backend.Billing.Plans.{CreatePlanInput, has_valid_overage, create_plan}
use hivepoint_backend.Billing.Plans.Created.{create_plan-build_settlement}

abbrev input : CreatePlanInput
input = record {
  product_id = 3;
  name = "metered";
  price_cents = 900;
  currency = none;
  period = none;
  quota_requests = 100;
  rate_limit_rpm = none;
  allow_overage = some true;
  overage_unit_requests = some 10;
  overage_price_cents = some 5;
  is_active = none;
}

abbrev product : ApiProduct
product = record {
  id = 3;
  owner_id = 2;
  title = "api";
  description = "";
  category = "";
  tags = [];
  status = ProductStatus.draft;
}

abbrev owner : User
owner = record { id = 2; email = "a@b.c"; role = Role.seller }

create_plan_of_other_seller :
    create_plan
      (list_delegate clash_product)
      (list_delegate clash_plan)
      6
      input
      (record owner { id = 4 })
      (product ∷ [])
      (plan ∷ [])
    ≡ throw (app_error not_owner 403)
unfolding create_plan
create_plan_of_other_seller = refl

create_plan-build_settlement_example :
    (new : Plan) × (create_plan
        (list_delegate clash_product)
        (list_delegate clash_plan)
        6
        input
        owner
        (product ∷ [])
        (plan ∷ [])
      ≡ ok (new, new ∷ plan ∷ []))
    × (ltb 0 (build_settlement new 101).amount_cents ≡ true)
unfolding has_valid_overage
create_plan-build_settlement_example =
    create_plan-build_settlement (list_delegate clash_product) (list_delegate clash_plan) 6 input
      owner (product ∷ []) (plan ∷ []) product 101 refl refl refl refl (omega arith)
