-- ===== src/Gateway/Dispatch/Outcome.antt =====
-- What a request through the gateway has done, however it ends.
use hivepoint_backend.Common.{
  ℕ, String, ◌≡◌, inl, inr, refl, ◌∙◌, subst, Bool, true, false, Option, some, ◌==◌, not, str_eq,
  or_else, arith, Option-cases, Bool-cases,
}
use hivepoint_backend.Errors.{Failure, ok, Result-cases}
use hivepoint_backend.Schema.{ApiVersion}
use hivepoint_backend.Usage.Aggregation.Invariant.{IsAggregated}
use hivepoint_backend.Usage.Store.{Db}
use hivepoint_backend.Usage.Authorize.{AuthorizeResponse, decided}
use hivepoint_backend.Usage.Authorize.Consumption.{
  IsAccounted, authorize_usage_internal_preview, authorize_usage_internal-IsAccounted,
}
use hivepoint_backend.Gateway.Burst.{BurstDecision, check_and_consume}
use hivepoint_backend.Gateway.Target.{normalize_path}
use hivepoint_backend.Gateway.Dispatch.{
  after_charge, authorize, charge, limit_and_charge, find_published_version, execute,
}
use hivepoint_backend.Gateway.Requests.{
  GatewayDispatchInput, State, World, allowed_decision, is_published,
}
use hivepoint_backend.Gateway.Dispatch.Ends.{IsOutcome, stopped, send-IsOutcome}

module _ (world : World) (input : GatewayDispatchInput) where
  -- Up to the charge nothing has changed but the buckets.
  module _ (before : State) (aggregated : IsAggregated before.db.usage) (proxy_mode : Bool)
      (version : ApiVersion) (api_key : String) (now : ℕ) where
    charged-IsOutcome :
        (burst : BurstDecision) (path : String) (st : State)
        → st.sent ≡ before.sent
        → (response : AuthorizeResponse) (db : Db)
        → IsAccounted world.config world.client now
            (record {
              api_key = api_key;
              product_id = input.product_id;
              endpoint = normalize_path world.urls input.path;
              request_count = input.request_count;
              occurred_at = some now;
              consume = some true;
            })
            before.db
            db
            response
        → IsOutcome world input api_key now before
            (after_charge world input proxy_mode version path burst st response db).1
            (after_charge world input proxy_mode version path burst st response db).0
    unfolding after_charge
    charged-IsOutcome burst path st quiet (decided d) db (inl refused) =
        rw (after_charge, refused.not_allowed) (stopped _ refused.unchanged quiet)
    charged-IsOutcome burst path st quiet (decided d) db (inr (paid, passed, same)) =
        let passes : allowed_decision (decided d) ≡ some d = ground (arith, passed) in
        rw (after_charge, passes)
          (send-IsOutcome world input api_key now before proxy_mode d burst (record st { db = db })
            paid same quiet version path)
    charged-IsOutcome burst path st quiet (AuthorizeResponse.invalid_api_key p n) db same =
        stopped _ same quiet
    charged-IsOutcome burst path st quiet (AuthorizeResponse.no_active_subscription k u n) db same =
        stopped _ same quiet

    charge-IsOutcome :
        (burst : BurstDecision) (st : State)
        → st.db ≡ before.db
        → st.sent ≡ before.sent
        → IsOutcome world input api_key now before
            (charge world input proxy_mode version api_key
              (normalize_path world.urls input.path)
              now
              burst
              st).1
            (charge world input proxy_mode version api_key
              (normalize_path world.urls input.path)
              now
              burst
              st).0
    unfolding charge
    charge-IsOutcome burst st same quiet =
        let path = normalize_path world.urls input.path in
        elim (Result-cases (authorize world input now api_key path now true st.db)) [
          | inl (e, threw) ↦ rw (charge, threw) (stopped e same quiet)
          | inr ((response, db), told) ↦
              rw (charge, told)
                (charged-IsOutcome burst path st quiet response db (
                  authorize_usage_internal-IsAccounted world.config world.client now before.db _
                    response db aggregated refl
                    (subst
                      (λ (x : Db).
                        authorize world input now api_key path now true x ≡ ok (response, db))
                      same told)))
        ]

    limit_and_charge-IsOutcome :
        (faults : ℕ → Option Failure) (st : State)
        → st.db ≡ before.db
        → st.sent ≡ before.sent
        → IsOutcome world input api_key now before
            (limit_and_charge world input proxy_mode version api_key now faults st).1
            (limit_and_charge world input proxy_mode version api_key now faults st).0
    unfolding limit_and_charge
    limit_and_charge-IsOutcome faults st same quiet =
        let path = normalize_path world.urls input.path in
        elim (Result-cases (authorize world input now api_key path now false st.db)) [
          | inl (e, threw) ↦ rw (limit_and_charge, threw) (stopped e same quiet)
          | inr ((response, db), told) ↦
              let unchanged : db ≡ before.db =
                authorize_usage_internal_preview world.config world.client now st.db _ response db
                  refl told
                ∙ same in
              elim (Option-cases (allowed_decision response)) [
                | inl refused ↦ rw (limit_and_charge, told, refused) (stopped _ unchanged quiet)
                | inr (d, passes) ↦
                    elim (Result-cases (
                      check_and_consume world.burst_config world.gateway_burst_bucket faults
                        (world.key_of d.subscription_id) input.request_count d.rate_limit_rpm now
                        st.buckets)) [
                          | inl (e, threw) ↦
                              rw (limit_and_charge, told, passes, threw) (stopped e unchanged quiet)
                          | inr ((burst, buckets), limited) ↦
                              elim (Bool-cases (not burst.allowed)) [
                                | inl over ↦
                                    rw (limit_and_charge, told, passes, limited, over)
                                      (stopped _ unchanged quiet)
                                | inr calm ↦
                                    rw (limit_and_charge, told, passes, limited, calm)
                                      (charge-IsOutcome burst _ unchanged quiet)
                              ]
                        ]
              ]
        ]

  -- Where the aggregates agree with the aggregated records, every request through the gateway has
  -- one of three ends: it throws, and nothing was charged and nothing sent; it throws, it was charged
  -- and at most one request was sent; or it answers, it was charged to the subscription that the
  -- answer names, and exactly one request was sent, to the address that the answer names. To be
  -- charged is to be recorded with its count in the running period of the subscription that the
  -- given key has for the product; without overage this keeps to the quota of that subscription's
  -- plan, and with a rate limit to the plan's rate in the last minute. So nothing is sent that was
  -- not charged.
  pub execute-IsOutcome :
      (provided_api_key : Option String) (proxy_mode : Bool) (now : ℕ) (faults : ℕ → Option Failure)
      (st : State)
      → IsAggregated st.db.usage
      → IsOutcome world input
          (world.urls.net.trim (or_else provided_api_key ""))
          now
          st
          (execute world input provided_api_key proxy_mode now faults st).1
          (execute world input provided_api_key proxy_mode now faults st).0
  unfolding execute
  execute-IsOutcome provided proxy_mode now faults st aggregated =
      let api_key = world.urls.net.trim (or_else provided "") in
      elim (Bool-cases (str_eq api_key "")) [
        | inl missing ↦ rw (execute, missing) (stopped _ refl refl)
        | inr given ↦
            elim (Option-cases (
              world.client.api_product.find_unique (λ p. p.id == input.product_id)
                st.db.products)) [
                  | inl unknown ↦ rw (execute, given, unknown) (stopped _ refl refl)
                  | inr (product, listed) ↦ elim (Bool-cases (not (is_published product.status))) [
                    | inl hidden ↦ rw (execute, given, listed, hidden) (stopped _ refl refl)
                    | inr public ↦
                        elim (Option-cases (find_published_version world input st.versions)) [
                          | inl none_yet ↦
                              rw (execute, given, listed, public, none_yet) (stopped _ refl refl)
                          | inr (version, released) ↦
                              rw (execute, given, listed, public, released)
                                (limit_and_charge-IsOutcome st aggregated proxy_mode version api_key
                                  now faults st refl refl)
                        ]
                  ]
                ]
      ]
