-- ===== src/Billing/Subscriptions/Access.antt =====
-- What a cancellation leaves: who may cancel, and the access that the subscription keeps.
use hivepoint_backend.Common.{
  ℕ, ◌∙◌, subst, sym, Bool-cases, inl, inr, ◌≡◌, ◌≢◌, refl, Bool, true, false, none, some, ◌==◌,
  ◌||◌, find, find-some, find-update_first, find-update_first_ne, arith,
}
use hivepoint_backend.Errors.{Result, ok, throw, app_error, not_owner}
use hivepoint_backend.Schema.{Subscription, BillingProvider}
use hivepoint_backend.Usage.Windows.{get_usage_window}
use hivepoint_backend.Billing.Store.{Db, Client, Config}
use hivepoint_backend.Billing.Invoices.{subscription_with_id, update_subscription}
use hivepoint_backend.Billing.Subscriptions.{
  User, PaymentProvider, is_admin, mark_cancel, cancel_subscription,
}

-- The subscription stands in both tables, marked in the second one, with the same windows of access;
-- the others are as they were.
pub record IsMarked (db db' : Db) (id : ℕ) (s : Subscription) : Type 0 where
  pub marked : Subscription
  pub found : find (subscription_with_id id) db'.subscriptions ≡ some marked
  pub cancels : marked.cancel_at_period_end ≡ true
  pub windows : (t : ℕ) → get_usage_window marked t ≡ get_usage_window s t
  pub others :
      (other : ℕ)
      → other ≢ id
      → find (subscription_with_id other) db'.subscriptions
        ≡ find (subscription_with_id other) db.subscriptions

-- The owner or an administrator
abbrev pub may_cancel : User → Subscription → Bool
may_cancel user s = is_admin user.role || s.user_id == user.id

-- What the answer to a cancellation says: it succeeds where the user may cancel.
abbrev pub IsAnswered : Db → ℕ → Subscription → User → Result Db → Type 0
IsAnswered db id s user (ok db') = (may_cancel user s ≡ true) × IsMarked db db' id s
IsAnswered db id s user (throw e) = may_cancel user s ≡ false

windows-mark_cancel :
    (s : Subscription) (t : ℕ)
    → get_usage_window (record s { cancel_at_period_end = true }) t ≡ get_usage_window s t
unfolding get_usage_window
windows-mark_cancel s t = ground arith

module _ (config : Config) (client : Client) (payments : PaymentProvider) where
  mark_cancel_lem :
      (db : Db) (id : ℕ) (s : Subscription)
      → find (subscription_with_id id) db.subscriptions ≡ some s
      → IsMarked db (mark_cancel config client payments db id none) id s
  unfolding mark_cancel update_subscription get_usage_window
  mark_cancel_lem db id s found =
      let mark : Subscription → Subscription =
        λ s. record s { cancel_at_period_end = true; current_period_end = s.current_period_end } in
      let table = client.subscription.update_lem (subscription_with_id id) mark db.subscriptions in
      let named = find-some (subscription_with_id id) db.subscriptions s found in
      record {
        marked = mark s;
        found =
            simp table
              (find-update_first (subscription_with_id id) mark db.subscriptions s found named);
        cancels = refl;
        windows = λ t. windows-mark_cancel s t;
        others = λ other differs. simp table (
            find-update_first_ne (subscription_with_id id) mark (subscription_with_id other)
              db.subscriptions (λ x. ground arith));
      }

  -- Where the subscription is one of the mock provider, a cancellation succeeds exactly for its owner
  -- and for an administrator; it marks that subscription, takes no window of access from it, and
  -- leaves every other one as it was.
  pub cancel_subscription_keeps_access :
      (db : Db) (id : ℕ) (user : User) (s : Subscription)
      → find (subscription_with_id id) db.subscriptions ≡ some s
      → s.payment_provider ≡ BillingProvider.mock
      → IsAnswered db id s user (cancel_subscription config client payments db id user)
  unfolding cancel_subscription
  cancel_subscription_keeps_access db id user s found mock =
      let loaded : client.subscription.find_unique (subscription_with_id id) db.subscriptions
          ≡ some s =
        client.subscription.find_unique_lem (subscription_with_id id) db.subscriptions ∙ found in
      elim (Bool-cases (may_cancel user s)) [
        | inl may ↦
            let accepted : cancel_subscription config client payments db id user
                ≡ ok (mark_cancel config client payments db id none) =
              ground (arith, loaded, mock, may) in
            subst (IsAnswered db id s user) (sym accepted) (may, mark_cancel_lem db id s found)
        | inr not_his ↦
            let refused : cancel_subscription config client payments db id user
                ≡ throw (app_error not_owner 403) =
              ground (arith, loaded, not_his) in
            subst (IsAnswered db id s user) (sym refused) not_his
      ]
