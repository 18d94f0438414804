-- ===== src/Errors.antt =====
-- src/common/errors: application errors by code and HTTP status, and the result of code that may
-- throw one. Errors of the database client are kept apart.
use hivepoint_backend.Common.{ℕ, Bool, true, false, ◌≡◌, refl, ◌⊎◌, inl, inr}
use hivepoint_backend.Prisma.{PrismaError}

-- `ErrorCodes`
pub data ErrorCode : Type 0 where
  internal_error http_error bad_request unauthorized forbidden not_found : ErrorCode
  product_not_found product_not_ready plan_not_found subscription_not_found key_not_found :
      ErrorCode
  subscription_not_active plan_inactive already_subscribed subscription_pending : ErrorCode
  invoice_not_found version_not_found not_owner product_not_public forbidden_role : ErrorCode
  mock_payment_forbidden usage_ingest_forbidden conflict version_already_exists : ErrorCode
  validation_error payment_provider_not_enabled stripe_webhook_invalid : ErrorCode
  checkout_session_not_found invalid_api_key no_active_subscription quota_exceeded : ErrorCode
  rate_limit_exceeded gateway_request_body_too_large gateway_target_not_configured : ErrorCode
  gateway_upstream_unavailable gateway_response_body_too_large unsafe_external_url : ErrorCode
  llm_not_configured llm_upstream_unavailable ml_suggestions_disabled : ErrorCode
  ml_upstream_unavailable : ErrorCode

-- What a service throws: an `AppError` with its `httpStatus`, an error of the database client, or
-- any other error, such as one of the payment provider.
pub data Failure : Type 0 where
  app_error : ErrorCode → ℕ → Failure
  prisma_error : PrismaError → Failure
  external_error : Failure

pub data Result {ℓ} (A : Type ℓ) : Type ℓ where
  ok : A → Result A
  throw : Failure → Result A

infixl 5 ◌>>=◌ ◌>>◌
abbrev pub ◌>>=◌ {ℓ κ} : {A : Type ℓ} {B : Type κ} → Result A → (A → Result B) → Result B
ok a >>= f = f a
throw e >>= f = throw e

abbrev pub ◌>>◌ {ℓ} : {B : Type ℓ} → Result (Unit {0}) → Result B → Result B
m >> k = m >>= λ _. k

-- `if (test) { throw error; }`
abbrev pub throw_if : Bool → Failure → Result (Unit {0})
throw_if true e = throw e
throw_if false e = ok tt

pub Result-cases {ℓ} :
    {A : Type ℓ} (r : Result A) → ((e : Failure) × (r ≡ throw e)) ⊎ ((a : A) × (r ≡ ok a))
Result-cases (throw e) = inl (e, refl)
Result-cases (ok a) = inr (a, refl)
