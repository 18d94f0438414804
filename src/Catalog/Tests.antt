-- ===== src/Catalog/Tests.antt =====
-- A product that is published and hidden, and a version of it.
use hivepoint_backend.Common.{
  ◌≡◌, ◌≢◌, ◌⊎◌, ◌↔◌, refl, true, none, some, List, [], ◌∷◌, ◌&&◌, not, any, find, if◌then◌else◌,
}
use hivepoint_backend.Prisma.Lists.{list_delegate}
use hivepoint_backend.Errors.{ok, throw, app_error, version_already_exists}
use hivepoint_backend.Schema.{ApiProduct, ProductStatus, Role, clash_product, clash_version}
use hivepoint_backend.ExternalUrl.{assert_safe_external_http_url, parse_external_url}
use hivepoint_backend.Billing.Subscriptions.{User}
use hivepoint_backend.Catalog.Products.{
  ProductView, UpdateProductInput, is_owner_or_admin, is_published, product_with_id, update_product,
  get_product_by_id,
}
use hivepoint_backend.Catalog.Products.Status.{
  Call, IsReachable, after_updates, after_updates-IsReachable, viewed, get_product_by_id_iff,
}
use hivepoint_backend.Catalog.Versions.{
  World, CreateVersionInput, is_numbered, new_version, create_version, fetch_open_api_snapshot,
}
use hivepoint_backend.Catalog.Versions.Numbers.{create_version_lem}

abbrev product : ApiProduct
product = record {
  id = 3;
  owner_id = 1;
  title = "maps";
  description = "maps of towns";
  category = "geo";
  tags = [];
  status = ProductStatus.draft;
}

abbrev seller : User
seller = record { id = 1; email = "s@b.c"; role = Role.seller }

abbrev buyer : User
buyer = record { id = 2; email = "a@b.c"; role = Role.buyer }

abbrev to_status : ProductStatus → UpdateProductInput
to_status s = record {
  title = none;
  description = none;
  category = none;
  tags = none;
  status = some s;
}

abbrev calls : List Call
calls =
    record { id = 3; input = to_status ProductStatus.published; user = seller }
    ∷ record { id = 3; input = to_status ProductStatus.hidden; user = buyer }
    ∷ record { id = 3; input = to_status ProductStatus.hidden; user = seller }
    ∷ record { id = 3; input = to_status ProductStatus.draft; user = seller }
    ∷ []

last_hidden :
    after_updates (list_delegate clash_product) calls (product ∷ [])
    ≡ record product { status = ProductStatus.hidden } ∷ []
unfolding update_product
last_hidden = refl

after_updates-IsReachable_example :
    (p' : ApiProduct) × (find
        (product_with_id 3)
        (after_updates (list_delegate clash_product) calls (product ∷ []))
      ≡ some p')
    × IsReachable ProductStatus.draft p'.status
    × (p'.owner_id ≡ 1)
    × ((ProductStatus.draft ≡ ProductStatus.draft) ⊎ (p'.status ≢ ProductStatus.draft))
after_updates-IsReachable_example =
    after_updates-IsReachable (list_delegate clash_product) calls (product ∷ []) 3 product refl

abbrev shown : ApiProduct
shown = record product { status = ProductStatus.published }

abbrev views : List ProductView
views = record { product_id = 3; viewer_user_id = some 2 } ∷ []

get_product_by_id_iff_example :
    (get_product_by_id (list_delegate clash_product) 3 (some buyer) (shown ∷ []) []
      ≡ ok (shown, views))
    ↔ (((is_published shown.status ≡ true) ⊎ (is_owner_or_admin shown.owner_id (some buyer) ≡ true))
        × (views ≡ (
            if is_published shown.status && not (is_owner_or_admin shown.owner_id (some buyer))
            then viewed shown (some buyer) ∷ []
            else [])))
get_product_by_id_iff_example =
    get_product_by_id_iff (list_delegate clash_product) 3 (some buyer) (shown ∷ []) [] shown views
      refl

abbrev world : World
world = record {
  net = record {
    parse_url = λ s. some (record {
      protocol = "https:";
      username = "";
      password = "";
      hostname = "maps.example";
      pathname = "/api.json";
    });
    lookup = λ s. none;
    is_ip = λ s. 0;
    trim = λ s. s;
    to_lower_case = λ s. s;
  };
  allow_private_network_targets = true;
  fetch = λ s. ok (record { ok_flag = true; body = "openapi" });
  byte_length = λ s. 7;
  api_product = list_delegate clash_product;
  api_version = list_delegate clash_version;
}

abbrev input : CreateVersionInput
input = record { version = "1"; open_api_url = "https://maps.example/api.json" }

create_version_lem_example : create_version world 500 4 3 input seller (product ∷ []) [] ≡ (
    if any (is_numbered 3 "1") []
    then throw (app_error version_already_exists 409)
    else ok (new_version 500 4 3 input "openapi", new_version 500 4 3 input "openapi" ∷ []))
unfolding fetch_open_api_snapshot assert_safe_external_http_url parse_external_url
create_version_lem_example =
    create_version_lem world 500 4 3 input seller (product ∷ []) [] product "openapi" refl refl refl
      refl
