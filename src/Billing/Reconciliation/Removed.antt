-- ===== src/Billing/Reconciliation/Removed.antt =====
-- A subscription that Stripe no longer has ends here too.
use hivepoint_backend.Common.{
  ℕ, ◌≡◌, refl, String, Bool, true, false, some, none, List, [], ◌∷◌, find, find-some, update_first,
  arith,
}
use hivepoint_backend.Errors.{ok}
use hivepoint_backend.Schema.{Subscription, SubscriptionStatus}
use hivepoint_backend.Usage.Store.{is_usable_at}
use hivepoint_backend.Billing.Store.{Db, Client, Config}
use hivepoint_backend.Billing.Invoices.{subscription_with_id, update_subscription}
use hivepoint_backend.Billing.Sync.{
  subscription_with_external_id, mark_subscription_canceled_by_external_id, canceled,
}
use hivepoint_backend.Billing.Webhooks.{Stripe}
use hivepoint_backend.Billing.Reconciliation.{WorkerConfig, missing, reconcile_subscription}

-- A row that two tests find is rewritten by the one, and found by the other.
find-update_found :
    (w v : Subscription → Bool) (u : Subscription → Subscription) (rows : List Subscription)
    (r : Subscription)
    → find w rows ≡ some r
    → find v rows ≡ some r
    → v (u r) ≡ true
    → find v (update_first w u rows) ≡ some (u r)
find-update_found w v u [] r h k e = absurd (ground (arith, h))
find-update_found w v u (x ∷ rows) r h k e = ground (
  arith,
  h,
  k,
  e,
  find-some w (x ∷ rows) r h,
  find-some v (x ∷ rows) r k,
  find-update_found w v u rows r,
)

module _ (config : Config) (client : Client) (stripe : Stripe) (worker : WorkerConfig) where
  -- Where Stripe no longer has a subscription that is known here by its external id, reconciling it
  -- succeeds: it is CANCELED, without grace, and no request is authorized by it at any date.
  pub reconcile_subscription_removed :
      (now new_id t : ℕ) (db : Db) (external_id : String) (s : Subscription)
      → worker.retrieve external_id ≡ missing
      → find (subscription_with_external_id external_id) db.subscriptions ≡ some s
      → find (subscription_with_id s.id) db.subscriptions ≡ some s
      → (db' : Db) × (s' : Subscription) × (reconcile_subscription config client stripe worker now
            new_id db external_id
          ≡ (ok tt, db'))
        × (find (subscription_with_external_id external_id) db'.subscriptions ≡ some s')
        × (s'.status ≡ SubscriptionStatus.canceled)
        × (s'.grace_period_ends_at ≡ none)
        × (is_usable_at t s' ≡ false)
  unfolding reconcile_subscription mark_subscription_canceled_by_external_id update_subscription
  reconcile_subscription_removed now new_id t db external_id s gone known by_id =
      let v = subscription_with_external_id external_id in
      let w = subscription_with_id s.id in
      let u = canceled config client in
      (
        update_subscription config client db s.id u,
        u s,
        ground (arith, gone, client.subscription.find_unique_lem v db.subscriptions, known),
        rw (client.subscription.update_lem) (
            find-update_found w v u db.subscriptions s by_id known
              (find-some v db.subscriptions s known)),
        refl,
        refl,
        refl,
      )
