-- ===== src/Catalog/Versions.antt =====
-- src/modules/catalog/versions.service.ts: a version of a product is created with a snapshot of its
-- OpenAPI document.
pub mod Numbers
use hivepoint_backend.Common.{
  ℕ, String, Bool, true, false, Option, none, some, List, [], ◌∷◌, ◌&&◌, ◌==◌, not, leb, or_else,
  is_some, is_truthy, str_eq, if◌then◌else◌,
}
use hivepoint_backend.Errors.{
  Failure, Result, ok, throw, app_error, prisma_error, product_not_found, not_owner,
  version_already_exists, version_not_found, validation_error, not_found, product_not_public, ◌>>=◌,
}
use hivepoint_backend.Prisma.{Delegate, p2002}
use hivepoint_backend.Schema.{
  ApiProduct, ProductStatus, ApiVersion, VersionStatus, clash_product, clash_version,
}
use hivepoint_backend.ExternalUrl.{Network, SafeExternalUrlOptions, assert_safe_external_http_url}
use hivepoint_backend.Billing.Subscriptions.{User}
use hivepoint_backend.Catalog.Products.{is_owner_or_admin, is_published, product_with_id}

-- `CreateVersionInput` and `UpdateVersionInput` of src/modules/catalog/catalog.schemas.ts; none is
-- undefined.
pub record CreateVersionInput : Type 0 where
  pub version : String
  pub open_api_url : String

pub record UpdateVersionInput : Type 0 where
  pub status : Option VersionStatus
  pub open_api_url : Option String

-- What `fetch` answers of a document, as far as it is read.
pub record DocumentResponse : Type 0 where
  pub ok_flag : Bool
  pub body : String

-- The outside world of the service; `fetch` may reject, and the timeout makes it.
pub record World : Type 0 where
  pub net : Network
  pub allow_private_network_targets : Bool
  pub fetch : String → Result DocumentResponse
  pub byte_length : String → ℕ
  pub api_product : Delegate clash_product
  pub api_version : Delegate clash_version

-- OPENAPI_MAX_SIZE_BYTES
abbrev pub openapi_max_size_bytes : ℕ
openapi_max_size_bytes = 2000000

abbrev pub is_published_version : VersionStatus → Bool
is_published_version s = elim s [ VersionStatus.published ↦ true | _ ↦ false ]

abbrev pub is_version_status_transition_allowed : VersionStatus → VersionStatus → Bool
is_version_status_transition_allowed VersionStatus.draft VersionStatus.draft = true
is_version_status_transition_allowed VersionStatus.published VersionStatus.published = true
is_version_status_transition_allowed VersionStatus.draft VersionStatus.published = true
is_version_status_transition_allowed VersionStatus.published VersionStatus.draft = true

abbrev pub is_refused_version_transition : VersionStatus → Option VersionStatus → Bool
is_refused_version_transition current none = false
is_refused_version_transition current (some next) =
    not (is_version_status_transition_allowed current next)

-- `where: {productId, version}`
abbrev pub is_numbered : ℕ → String → ApiVersion → Bool
is_numbered product_id version v = v.product_id == product_id && str_eq v.version version

-- `where: {id}`
abbrev pub version_with_id : ℕ → ApiVersion → Bool
version_with_id id v = v.id == id

-- The row of `apiVersion.create`.
abbrev pub new_version : ℕ → ℕ → ℕ → CreateVersionInput → String → ApiVersion
new_version now new_id product_id input snapshot = record {
  id = new_id;
  product_id = product_id;
  version = input.version;
  status = VersionStatus.draft;
  open_api_url = input.open_api_url;
  open_api_snapshot = some snapshot;
  open_api_fetched_at = some now;
  created_at = now;
}

module _ (world : World) where
  -- Every failure but that of the address is answered with VALIDATION_ERROR.
  unfoldable pub fetch_open_api_snapshot : String → Result String
  fetch_open_api_snapshot open_api_url =
      elim (assert_safe_external_http_url world.net open_api_url (record {
        allow_private_network_targets = world.allow_private_network_targets;
        http_status = 400;
      })) [
        | throw e ↦ throw e
        | ok url ↦ elim (world.fetch open_api_url) [
          | throw e ↦ throw (app_error validation_error 400)
          | ok response ↦
              if not response.ok_flag
              then throw (app_error validation_error 400)
              else if str_eq (world.net.trim response.body) ""
              then throw (app_error validation_error 400)
              else if not (leb (world.byte_length response.body) openapi_max_size_bytes)
              then throw (app_error validation_error 400)
              else ok response.body
        ]
      ]

  -- The row with its snapshot. A unique constraint refuses it with VERSION_ALREADY_EXISTS.
  unfoldable pub insert_version :
      ℕ → ℕ → ℕ → CreateVersionInput → List ApiVersion → Result (ApiVersion × List ApiVersion)
  insert_version now new_id product_id input versions =
      elim (fetch_open_api_snapshot input.open_api_url) [
        | throw e ↦ throw e
        | ok snapshot ↦
            let version = new_version now new_id product_id input snapshot in
            elim (world.api_version.create version versions) [
              | none ↦ throw (app_error version_already_exists 409)
              | some created ↦ ok (version, created)
            ]
      ]

  -- `new_id` is the id that the database draws.
  unfoldable pub create_version :
      ℕ
      → ℕ
      → ℕ
      → CreateVersionInput
      → User
      → List ApiProduct
      → List ApiVersion
      → Result (ApiVersion × List ApiVersion)
  create_version now new_id product_id input user products versions =
      elim (world.api_product.find_unique (product_with_id product_id) products) [
        | none ↦ throw (app_error product_not_found 404)
        | some product ↦
            if not (is_owner_or_admin product.owner_id (some user))
            then throw (app_error not_owner 403)
            else elim (world.api_version.find_first (is_numbered product_id input.version) []
                versions) [
                  | some existing ↦ throw (app_error version_already_exists 409)
                  | none ↦ insert_version now new_id product_id input versions
                ]
      ]

  -- The data of `apiVersion.update`, with the snapshot of a new address.
  abbrev pub updated_version : ℕ → UpdateVersionInput → Option String → ApiVersion → ApiVersion
  updated_version now input snapshot v = record v {
    status = or_else input.status v.status;
    open_api_url = or_else input.open_api_url v.open_api_url;
    open_api_snapshot = if is_some snapshot then snapshot else v.open_api_snapshot;
    open_api_fetched_at = if is_some snapshot then some now else v.open_api_fetched_at;
  }

  unfoldable pub fetch_if_given : Option String → Result (Option String)
  fetch_if_given none = ok none
  fetch_if_given (some url) = fetch_open_api_snapshot url >>= λ snapshot. ok (some snapshot)

  -- A version always has its product.
  unfoldable pub update_version :
      ℕ
      → ℕ
      → UpdateVersionInput
      → User
      → List ApiProduct
      → List ApiVersion
      → Result (List ApiVersion)
  update_version now id input user products versions =
      elim (world.api_version.find_unique (version_with_id id) versions) [
        | none ↦ throw (app_error version_not_found 404)
        | some version ↦
            elim (world.api_product.find_unique (product_with_id version.product_id) products) [
              | none ↦ throw (app_error version_not_found 404)
              | some product ↦
                  if not (is_owner_or_admin product.owner_id (some user))
                  then throw (app_error not_owner 403)
                  else if is_refused_version_transition version.status input.status
                  then throw (app_error validation_error 400)
                  else elim (fetch_if_given input.open_api_url) [
                    | throw e ↦ throw e
                    | ok snapshot ↦ ok (
                        world.api_version.update (version_with_id id)
                          (updated_version now input snapshot) versions)
                  ]
            ]
      ]

  unfoldable pub get_version_schema :
      ℕ → Option User → List ApiProduct → List ApiVersion → Result (ApiVersion × String)
  get_version_schema id user products versions =
      elim (world.api_version.find_unique (version_with_id id) versions) [
        | none ↦ throw (app_error version_not_found 404)
        | some version ↦
            elim (world.api_product.find_unique (product_with_id version.product_id) products) [
              | none ↦ throw (app_error version_not_found 404)
              | some product ↦
                  if not (is_published product.status && is_published_version version.status)
                    && not (is_owner_or_admin product.owner_id user)
                  then throw (
                      if is_some user
                      then app_error not_owner 403
                      else app_error product_not_public 403)
                  else if not (is_truthy version.open_api_snapshot)
                  then throw (app_error not_found 404)
                  else ok (version, or_else version.open_api_snapshot "")
            ]
      ]
