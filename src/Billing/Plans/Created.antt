-- ===== src/Billing/Plans/Created.antt =====
-- What a new plan bills over its quota.
use hivepoint_backend.Common.{
  ℕ, ◌≡◌, ◌<◌, ◌≤◌, ◌*◌, ◌-◌, refl, subst, ◌∙◌, Bool, true, false, some, List, ◌∷◌, inl, inr, any,
  find, ◌&&◌, ◌||◌, ◌==◌, or_else, arith, Option-cases, Bool-cases, ltb,
}
use hivepoint_backend.Errors.{ok}
use hivepoint_backend.Prisma.{Delegate}
use hivepoint_backend.Schema.{ApiProduct, Plan, clash_product, clash_plan}
use hivepoint_backend.Usage.Overage.{ceil_div, ceil_div_bounds}
use hivepoint_backend.Billing.Subscriptions.{User}
use hivepoint_backend.Billing.OverageCollection.{build_settlement}
use hivepoint_backend.Catalog.Products.{is_admin, product_with_id}
use hivepoint_backend.Billing.Plans.{
  CreatePlanInput, OverageConfig, has_valid_overage, resolve_overage_config, is_seller, new_plan,
  create_plan,
}

-- An administrator sells on every product, a seller on an own one.
abbrev pub can_sell : User → ApiProduct → Bool
can_sell user product = is_admin user.role || is_seller user.role && product.owner_id == user.id

-- Something over the quota costs something.
ceil_div_positive :
    (over unit price : ℕ) → 0 < over → 0 < unit → 0 < price → 0 < ceil_div over unit * price
ceil_div_positive over unit price o u p = elim (Bool-cases (ceil_div over unit == 0)) [
  | inl z ↦
      let none_billed : ceil_div over unit ≡ 0 = ground (arith, z) in
      let covers : over ≤ 0 * unit =
        subst (λ c. over ≤ c * unit) none_billed (ceil_div_bounds over unit u).0 in
      absurd (omega (arith, o, covers))
  | inr h ↦ let billed : 0 < ceil_div over unit = ground (arith, h) in grind (arith, billed, p)
]

-- The overage columns that the schema lets through.
resolve_overage_config-valid :
    (input : CreatePlanInput)
    → has_valid_overage input ≡ true
    → resolve_overage_config input
      ≡ ok (record {
        allow_overage = or_else input.allow_overage false;
        overage_unit_requests = input.overage_unit_requests;
        overage_price_cents = input.overage_price_cents;
      })
unfolding has_valid_overage resolve_overage_config
resolve_overage_config-valid input v = elim (Option-cases input.overage_unit_requests) [
  | inl u ↦ elim (Option-cases input.overage_price_cents) [
    | inl p ↦ ground (arith, v, u, p)
    | inr (_, p) ↦ ground (arith, v, u, p)
  ]
  | inr (_, u) ↦ elim (Option-cases input.overage_price_cents) [
    | inl p ↦ ground (arith, v, u, p)
    | inr (_, p) ↦ ground (arith, v, u, p)
  ]
]

bills :
    (plan : Plan) (input : CreatePlanInput) (used : ℕ)
    → plan.allow_overage ≡ or_else input.allow_overage false
    → plan.overage_unit_requests ≡ input.overage_unit_requests
    → plan.overage_price_cents ≡ input.overage_price_cents
    → has_valid_overage input ≡ true
    → plan.quota_requests < used
    → ltb 0 (build_settlement plan used).amount_cents ≡ or_else input.allow_overage false
unfolding has_valid_overage build_settlement
bills plan input used a u p v over = elim (Bool-cases (or_else input.allow_overage false)) [
  | inr free ↦ ground (arith, a, free)
  | inl allowed ↦ elim (Option-cases input.overage_unit_requests) [
    | inl gone ↦ absurd (ground (arith, v, allowed, gone))
    | inr (unit, some_unit) ↦ elim (Option-cases input.overage_price_cents) [
      | inl gone ↦ absurd (ground (arith, v, allowed, gone, some_unit))
      | inr (price, some_price) ↦
          let charged : 0 < ceil_div (used - plan.quota_requests) unit * price =
            ceil_div_positive (used - plan.quota_requests) unit price (omega (arith, over))
              (ground (arith, v, allowed, some_unit, some_price))
              (ground (arith, v, allowed, some_unit, some_price)) in
          let unit_of : plan.overage_unit_requests ≡ some unit = u ∙ some_unit in
          let price_of : plan.overage_price_cents ≡ some price = p ∙ some_price in
          let amount : (build_settlement plan used).amount_cents
              ≡ ceil_div (used - plan.quota_requests) unit * price =
            ground (arith, a, unit_of, price_of, v, allowed, some_unit, some_price, over) in
          ground (arith, amount, charged, allowed)
    ]
  ]
]

module _ (product_client : Delegate clash_product) (plan_client : Delegate clash_plan) where
  -- An input whose overage fields the schema accepts, from an administrator or the seller who owns
  -- the product, makes a plan under a new id. A period whose usage exceeds the plan's quota is
  -- billed a positive amount exactly where the input allows overage.
  pub create_plan-build_settlement :
      (new_id : ℕ) (input : CreatePlanInput) (user : User) (products : List ApiProduct)
      (plans : List Plan) (product : ApiProduct) (used : ℕ)
      → has_valid_overage input ≡ true
      → find (product_with_id input.product_id) products ≡ some product
      → can_sell user product ≡ true
      → any (λ p. new_id == p.id) plans ≡ false
      → input.quota_requests < used
      → (plan : Plan) × (create_plan product_client plan_client new_id input user products plans
          ≡ ok (plan, plan ∷ plans))
        × (ltb 0 (build_settlement plan used).amount_cents ≡ or_else input.allow_overage false)
  unfolding create_plan
  create_plan-build_settlement new_id input user products plans product used v found sells fresh
        over =
      let overage : OverageConfig = record {
        allow_overage = or_else input.allow_overage false;
        overage_unit_requests = input.overage_unit_requests;
        overage_price_cents = input.overage_price_cents;
      } in
      let plan = new_plan new_id input overage in
      (
        plan,
        ground (
          arith,
          found,
          sells,
          fresh,
          product_client.find_unique_lem (product_with_id input.product_id) products,
          plan_client.create_lem plan plans,
          resolve_overage_config-valid input v,
        ),
        bills plan input used refl refl refl v over,
      )
