-- ===== src/Catalog/Products/Status.antt =====
-- The life of a product: it leaves its draft once, and is then published or hidden.
use hivepoint_backend.Common.{
  ℕ, ◌≡◌, ◌≢◌, ◌⊎◌, ◌↔◌, inl, inr, refl, ◌∙◌, true, false, Option, none, some, List, [], ◌∷◌, ◌&&◌,
  ◌==◌, not, find, find-some, find-update_first, find-update_first_ne, arith, Option-cases,
  Bool-cases, if◌then◌else◌,
}
use hivepoint_backend.Errors.{Result, ok, throw}
use hivepoint_backend.Prisma.{Delegate}
use hivepoint_backend.Schema.{ApiProduct, ProductStatus, clash_product}
use hivepoint_backend.Billing.Subscriptions.{User}
use hivepoint_backend.Catalog.Products.{
  ProductView, UpdateProductInput, is_owner_or_admin, is_published,
  is_product_status_transition_allowed, is_refused_transition, updated_product, product_with_id,
  update_product, record_product_view, get_product_by_id,
}

-- The steps between statuses.
pub data IsStep : ProductStatus → ProductStatus → Type 0 where
  stay : (s : ProductStatus) → IsStep s s
  publish : IsStep ProductStatus.draft ProductStatus.published
  hide : IsStep ProductStatus.published ProductStatus.hidden
  show : IsStep ProductStatus.hidden ProductStatus.published

-- One status leads to another by steps.
pub data IsReachable : ProductStatus → ProductStatus → Type 0 where
  here : (s : ProductStatus) → IsReachable s s
  onward : (s t u : ProductStatus) → IsStep s t → IsReachable t u → IsReachable s u

transition-IsStep :
    (s t : ProductStatus) → is_product_status_transition_allowed s t ≡ true → IsStep s t
transition-IsStep ProductStatus.draft ProductStatus.draft h = stay _
transition-IsStep ProductStatus.published ProductStatus.published h = stay _
transition-IsStep ProductStatus.hidden ProductStatus.hidden h = stay _
transition-IsStep ProductStatus.draft ProductStatus.published h = publish
transition-IsStep ProductStatus.published ProductStatus.hidden h = hide
transition-IsStep ProductStatus.hidden ProductStatus.published h = show
transition-IsStep ProductStatus.draft ProductStatus.hidden h = absurd (ground (arith, h))
transition-IsStep ProductStatus.published ProductStatus.draft h = absurd (ground (arith, h))
transition-IsStep ProductStatus.hidden ProductStatus.draft h = absurd (ground (arith, h))

-- No step leads to a draft, but one that changes nothing.
step_settled :
    (s t : ProductStatus) → IsStep s t → (s ≡ ProductStatus.draft) ⊎ (t ≢ ProductStatus.draft)
step_settled _ _ (stay ProductStatus.draft) = inl refl
step_settled _ _ (stay ProductStatus.published) = inr (λ e. ground (arith, e))
step_settled _ _ (stay ProductStatus.hidden) = inr (λ e. ground (arith, e))
step_settled _ _ publish = inl refl
step_settled _ _ hide = inr (λ e. ground (arith, e))
step_settled _ _ show = inr (λ e. ground (arith, e))

reachable_settled :
    (s u : ProductStatus) → IsReachable s u → (s ≡ ProductStatus.draft) ⊎ (u ≢ ProductStatus.draft)
reachable_settled _ _ (here s) = step_settled s s (stay s)
reachable_settled _ _ (onward s t u step steps) = elim (reachable_settled t u steps) [
  | inr settled ↦ inr settled
  | inl drafted ↦ elim (step_settled s t step) [
    | inl draft ↦ inl draft
    | inr settled ↦ absurd (settled drafted)
  ]
]

kept-IsStep :
    (input : UpdateProductInput) (p : ApiProduct)
    → is_refused_transition p.status input.status ≡ false
    → IsStep p.status (updated_product input p).status
kept-IsStep input p h = elim (Option-cases input.status) [
  | inl same ↦ rw same (stay p.status)
  | inr (next, asked) ↦ rw asked (transition-IsStep p.status next (ground (arith, h, asked)))
]

-- One call of `updateProduct`, with its arguments.
pub record Call : Type 0 where
  pub id : ℕ
  pub input : UpdateProductInput
  pub user : User

module _ (client : Delegate clash_product) where
  abbrev pub after_update : Result (List ApiProduct) → List ApiProduct → List ApiProduct
  after_update (ok products) before = products
  after_update (throw e) before = before

  -- Any sequence of calls; those that are refused leave the table as it is.
  abbrev pub after_updates : List Call → List ApiProduct → List ApiProduct
  after_updates [] products = products
  after_updates (c ∷ rest) products =
      after_updates rest
        (after_update (update_product client c.id c.input c.user products) products)

  update_product-IsStep :
      (c : Call) (products : List ApiProduct) (id : ℕ) (p : ApiProduct)
      → find (product_with_id id) products ≡ some p
      → (p' : ApiProduct) × (find
            (product_with_id id)
            (after_update (update_product client c.id c.input c.user products) products)
          ≡ some p')
        × IsStep p.status p'.status
        × (p'.owner_id ≡ p.owner_id)
  unfolding update_product
  update_product-IsStep c products id p found =
      let read = client.find_unique_lem (product_with_id c.id) products in
      elim (Option-cases (find (product_with_id c.id) products)) [
        | inl gone ↦ (p, rw (update_product, read, gone) found, stay _, refl)
        | inr (product, there) ↦
            elim (Bool-cases (not (is_owner_or_admin product.owner_id (some c.user)))) [
              | inl stranger ↦ (p, rw (update_product, read, there, stranger) found, stay _, refl)
              | inr owner ↦
                  elim (Bool-cases (is_refused_transition product.status c.input.status)) [
                    | inl refused ↦
                        (p, rw (update_product, read, there, owner, refused) found, stay _, refl)
                    | inr allowed ↦
                        let u = updated_product c.input in
                        let w = product_with_id c.id in
                        elim (Bool-cases (id == c.id)) [
                          | inl same ↦
                              let at_id : find (product_with_id c.id) products ≡ some p =
                                ground (arith, same, found) in
                              (
                                u p,
                                rw (update_product, read, there, owner, allowed, client.update_lem)
                                    (ground (
                                      arith,
                                      same,
                                      find-update_first w u products p at_id
                                          (find-some w products p at_id),
                                    )),
                                kept-IsStep c.input p (ground (arith, allowed, there, at_id)),
                                refl,
                              )
                          | inr other ↦ (
                            p,
                            rw (update_product, read, there, owner, allowed, client.update_lem)
                                (find-update_first_ne w u (product_with_id id) products
                                    (λ x h. ground (arith, h, other))
                                  ∙ found),
                            stay _,
                            refl,
                          )
                        ]
                  ]
            ]
      ]

  -- Whatever calls of `updateProduct` are made, by whomever, a product that is there stays, with its
  -- owner, and its status moves only from DRAFT to PUBLISHED and between PUBLISHED and HIDDEN; so a
  -- product that is no longer a draft never becomes one again.
  pub after_updates-IsReachable :
      (calls : List Call) (products : List ApiProduct) (id : ℕ) (p : ApiProduct)
      → find (product_with_id id) products ≡ some p
      → (p' : ApiProduct) × (find (product_with_id id) (after_updates calls products) ≡ some p')
        × IsReachable p.status p'.status
        × (p'.owner_id ≡ p.owner_id)
        × ((p.status ≡ ProductStatus.draft) ⊎ (p'.status ≢ ProductStatus.draft))
  after_updates-IsReachable [] products id p found =
      (p, found, here _, refl, reachable_settled _ _ (here p.status))
  after_updates-IsReachable (c ∷ rest) products id p found =
      let (q, moved, step, owner) = update_product-IsStep c products id p found in
      let (p', last, steps, owners, _) = after_updates-IsReachable rest _ id q moved in
      (
        p',
        last,
        onward _ _ _ step steps,
        owners ∙ owner,
        reachable_settled _ _ (onward p.status q.status p'.status step steps),
      )

-- The row of a view.
abbrev pub viewed : ApiProduct → Option User → ProductView
viewed p user = record {
  product_id = p.id;
  viewer_user_id = elim user [ none ↦ none | some u ↦ some u.id ];
}

-- Who sees a product: it is shown exactly where it is published, or to its owner or an
-- administrator; and a view is recorded exactly where it is shown, published, to someone else.
pub get_product_by_id_iff :
    (client : Delegate clash_product) (id : ℕ) (user : Option User) (products : List ApiProduct)
    (views : List ProductView) (p : ApiProduct) (after : List ProductView)
    → find (product_with_id id) products ≡ some p
    → (get_product_by_id client id user products views ≡ ok (p, after)) ↔ (
        ((is_published p.status ≡ true) ⊎ (is_owner_or_admin p.owner_id user ≡ true))
        × (after ≡ (
            if is_published p.status && not (is_owner_or_admin p.owner_id user)
            then viewed p user ∷ views
            else views)))
unfolding get_product_by_id record_product_view
get_product_by_id_iff client id none products views p after found =
    ground (arith, client.find_unique_lem (product_with_id id) products, found)
get_product_by_id_iff client id (some user) products views p after found =
    ground (arith, client.find_unique_lem (product_with_id id) products, found)
