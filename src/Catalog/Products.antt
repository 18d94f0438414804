-- ===== src/Catalog/Products.antt =====
-- src/modules/catalog/products.service.ts: a product is created as a draft, and its owner or an
-- administrator edits it.
pub mod Status
use hivepoint_backend.Common.{
  ℕ, String, Bool, true, false, Option, none, some, List, [], ◌∷◌, ◌&&◌, ◌||◌, ◌==◌, not, or_else,
  is_some, if◌then◌else◌,
}
use hivepoint_backend.Errors.{
  Result, ok, throw, app_error, prisma_error, product_not_found, product_not_public, not_owner,
  validation_error,
}
use hivepoint_backend.Prisma.{Delegate, p2002}
use hivepoint_backend.Schema.{ApiProduct, ProductStatus, Role, clash_product}
use hivepoint_backend.Billing.Subscriptions.{User}

-- model ProductView, less its id and date
pub record ProductView : Type 0 where
  pub product_id : ℕ
  pub viewer_user_id : Option ℕ

-- `CreateProductInput` and `UpdateProductInput` of src/modules/catalog/catalog.schemas.ts; none is
-- undefined.
pub record CreateProductInput : Type 0 where
  pub title : String
  pub description : String
  pub category : String
  pub tags : List String

pub record UpdateProductInput : Type 0 where
  pub title : Option String
  pub description : Option String
  pub category : Option String
  pub tags : Option (List String)
  pub status : Option ProductStatus

abbrev pub is_admin : Role → Bool
is_admin r = elim r [ Role.admin ↦ true | _ ↦ false ]

abbrev pub is_owner_or_admin : ℕ → Option User → Bool
is_owner_or_admin owner_id none = false
is_owner_or_admin owner_id (some user) = is_admin user.role || user.id == owner_id

abbrev pub is_published : ProductStatus → Bool
is_published s = elim s [ ProductStatus.published ↦ true | _ ↦ false ]

abbrev pub is_product_status_transition_allowed : ProductStatus → ProductStatus → Bool
is_product_status_transition_allowed ProductStatus.draft ProductStatus.draft = true
is_product_status_transition_allowed ProductStatus.published ProductStatus.published = true
is_product_status_transition_allowed ProductStatus.hidden ProductStatus.hidden = true
is_product_status_transition_allowed ProductStatus.draft ProductStatus.published = true
is_product_status_transition_allowed ProductStatus.published ProductStatus.hidden = true
is_product_status_transition_allowed ProductStatus.hidden ProductStatus.published = true
is_product_status_transition_allowed _ _ = false

-- The data of `apiProduct.update`: what is undefined stays.
abbrev pub updated_product : UpdateProductInput → ApiProduct → ApiProduct
updated_product input p = record p {
  title = or_else input.title p.title;
  description = or_else input.description p.description;
  category = or_else input.category p.category;
  tags = or_else input.tags p.tags;
  status = or_else input.status p.status;
}

-- `where: {id}`
abbrev pub product_with_id : ℕ → ApiProduct → Bool
product_with_id id p = p.id == id

abbrev pub is_refused_transition : ProductStatus → Option ProductStatus → Bool
is_refused_transition current none = false
is_refused_transition current (some next) = not (is_product_status_transition_allowed current next)

module _ (client : Delegate clash_product) where
  -- `new_id` is the id that the database draws.
  unfoldable pub create_product :
      ℕ → CreateProductInput → User → List ApiProduct → Result (ApiProduct × List ApiProduct)
  create_product new_id input user products =
      let product : ApiProduct = record {
        id = new_id;
        owner_id = user.id;
        title = input.title;
        description = input.description;
        category = input.category;
        tags = input.tags;
        status = ProductStatus.draft;
      } in
      elim (client.create product products) [
        | none ↦ throw (prisma_error p2002)
        | some created ↦ ok (product, created)
      ]

  unfoldable pub update_product :
      ℕ → UpdateProductInput → User → List ApiProduct → Result (List ApiProduct)
  update_product id input user products = elim (client.find_unique (product_with_id id) products) [
    | none ↦ throw (app_error product_not_found 404)
    | some product ↦
        if not (is_owner_or_admin product.owner_id (some user))
        then throw (app_error not_owner 403)
        else if is_refused_transition product.status input.status
        then throw (app_error validation_error 400)
        else ok (client.update (product_with_id id) (updated_product input) products)
  ]

  -- The views that `recordProductView` leaves.
  unfoldable pub record_product_view :
      ApiProduct → Option User → List ProductView → List ProductView
  record_product_view product user views =
      if not (is_published product.status)
      then views
      else if is_owner_or_admin product.owner_id user
      then views
      else record {
        product_id = product.id;
        viewer_user_id = elim user [ none ↦ none | some u ↦ some u.id ];
      }
        ∷ views

  unfoldable pub get_product_by_id :
      ℕ → Option User → List ApiProduct → List ProductView → Result (ApiProduct × List ProductView)
  get_product_by_id id user products views =
      elim (client.find_unique (product_with_id id) products) [
        | none ↦ throw (app_error product_not_found 404)
        | some product ↦
            if not (is_published product.status) && not (is_some user)
            then throw (app_error product_not_public 403)
            else if not (is_published product.status)
                && not (is_owner_or_admin product.owner_id user)
            then throw (app_error not_owner 403)
            else ok (product, record_product_view product user views)
      ]
