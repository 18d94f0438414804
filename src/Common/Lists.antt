-- ===== src/Common/Lists.antt =====
-- Lists over the native numbers: lengths, tests on rows and sums over chosen rows.
use Prim.Native.Nat.{ℕ, zero, suc, ◌+◌, ◌≤◌}
use mathlib.Core.Path.{◌≡◌, refl}
use mathlib.Core.Logic.{◌⊎◌, inl, inr}
use mathlib.Core.Bool.{Bool, true, false, ◌||◌}
use mathlib.Core.Option.{Option, none, some}
use mathlib.Core.List.{List, [], ◌∷◌}
use native.Mathlib.Omega.{arith}
use hivepoint_backend.Common.Tests.{if◌then◌else◌, Bool-cases}

module _ {ℓ} {A : Type ℓ} where
  abbrev pub length : List A → ℕ
  length [] = 0
  length (x ∷ xs) = suc (length xs)

  abbrev pub get_elem? : List A → ℕ → Option A
  get_elem? [] i = none
  get_elem? (x ∷ xs) zero = some x
  get_elem? (x ∷ xs) (suc i) = get_elem? xs i

  abbrev pub take : ℕ → List A → List A
  take zero xs = []
  take (suc n) [] = []
  take (suc n) (x ∷ xs) = x ∷ take n xs

  -- Does some row pass the test?
  abbrev pub any : (A → Bool) → List A → Bool
  any p [] = false
  any p (x ∷ xs) = p x || any p xs

  -- The sum of `f` over the rows that pass the test.
  abbrev pub sum_where : (A → Bool) → (A → ℕ) → List A → ℕ
  sum_where w f [] = 0
  sum_where w f (x ∷ xs) = (if w x then f x else 0) + sum_where w f xs

  -- The first row that passes the test.
  abbrev pub find : (A → Bool) → List A → Option A
  find w [] = none
  find w (x ∷ xs) = if w x then some x else find w xs

  -- The first row that passes the test is rewritten.
  abbrev pub update_first : (A → Bool) → (A → A) → List A → List A
  update_first w u [] = []
  update_first w u (x ∷ xs) = if w x then u x ∷ xs else x ∷ update_first w u xs

  -- A predicate of every row.
  abbrev pub All {κ} : (A → Type κ) → List A → Type κ
  All P [] = Unit
  All P (x ∷ xs) = P x × All P xs

-- Sums over chosen rows.
module _ {ℓ} {A : Type ℓ} (f : A → ℕ) where
  -- Rows that no test separates are summed alike.
  pub sum_where-congr :
      (v w : A → Bool) (xs : List A) → ((x : A) → v x ≡ w x) → sum_where v f xs ≡ sum_where w f xs
  sum_where-congr v w [] h = refl
  sum_where-congr v w (x ∷ xs) h = ground (arith, h x, sum_where-congr v w xs h)

  -- A test that no row passes sums to nothing.
  pub sum_where-never :
      (w : A → Bool) (xs : List A) → ((x : A) → w x ≡ false) → sum_where w f xs ≡ 0
  sum_where-never w [] h = refl
  sum_where-never w (x ∷ xs) h = ground (arith, h x, sum_where-never w xs h)

  -- A test that two disjoint tests make up is summed by them.
  pub sum_where-split :
      (w u v : A → Bool) (xs : List A)
      → ((x : A) → (if w x then f x else 0) ≡ (if u x then f x else 0) + (if v x then f x else 0))
      → sum_where w f xs ≡ sum_where u f xs + sum_where v f xs
  sum_where-split w u v [] h = omega arith
  sum_where-split w u v (x ∷ xs) h = omega (arith, h x, sum_where-split w u v xs h)

  -- A row rewritten by `u` gains what `u` adds to it.
  pub sum_where-update_first :
      (w v : A → Bool) (u : A → A) (n : ℕ) (xs : List A)
      → any w xs ≡ true
      → ((x : A) → w x ≡ true → (if v (u x) then f (u x) else 0) ≡ (if v x then f x else 0) + n)
      → sum_where v f (update_first w u xs) ≡ sum_where v f xs + n
  sum_where-update_first w v u n [] found h = ground arith
  sum_where-update_first w v u n (x ∷ xs) found h =
      ground (arith, h x, sum_where-update_first w v u n xs)

-- The row that a test finds, after a row was rewritten.
module _ {ℓ} {A : Type ℓ} (w : A → Bool) (u : A → A) where
  pub find-update_first :
      (xs : List A) (r : A)
      → find w xs ≡ some r
      → w (u r) ≡ true
      → find w (update_first w u xs) ≡ some (u r)
  find-update_first [] r h k = ground arith
  find-update_first (x ∷ xs) r h k = ground (arith, find-update_first xs r)

  pub find-update_first_ne :
      (v : A → Bool) (xs : List A)
      → ((x : A) → w x ≡ true → (v x ≡ false) × (v (u x) ≡ false))
      → find v (update_first w u xs) ≡ find v xs
  find-update_first_ne v [] h = refl
  find-update_first_ne v (x ∷ xs) h = ground (arith, h x, find-update_first_ne v xs h)

-- What a search says of the row that it finds, and of the rows where it finds none.
module _ {ℓ} {A : Type ℓ} (w : A → Bool) where
  pub find-some : (xs : List A) (r : A) → find w xs ≡ some r → w r ≡ true
  find-some [] r h = ground arith
  find-some (x ∷ xs) r h = ground (arith, find-some xs r)

  pub find-none : (xs : List A) → find w xs ≡ none → any w xs ≡ false
  find-none [] h = refl
  find-none (x ∷ xs) h = ground (arith, find-none xs)

-- Rewriting the row that is found again, to what it is already, changes nothing.
module _ {ℓ} {A : Type ℓ} (w : A → Bool) (u : A → A) where
  pub update_first_same :
      (xs : List A) (r : A) → find w xs ≡ some r → u r ≡ r → update_first w u xs ≡ xs
  update_first_same [] r h k = refl
  update_first_same (x ∷ xs) r h k = ground (arith, update_first_same xs r)

-- Sums where no row passes, and where a row is rewritten so that it counts no more than before.
module _ {ℓ} {A : Type ℓ} (f : A → ℕ) (v : A → Bool) where
  pub sum_where-none : (xs : List A) → any v xs ≡ false → sum_where v f xs ≡ 0
  sum_where-none [] h = refl
  sum_where-none (x ∷ xs) h = ground (arith, sum_where-none xs)

  pub sum_where-update_first_le :
      (w : A → Bool) (u : A → A) (xs : List A)
      → ((x : A) → (if v (u x) then f (u x) else 0) ≤ (if v x then f x else 0))
      → sum_where v f (update_first w u xs) ≤ sum_where v f xs
  sum_where-update_first_le w u [] h = omega arith
  sum_where-update_first_le w u (x ∷ xs) h = ground (arith, h x, sum_where-update_first_le w u xs h)

-- A search by a test that a rewrite does not affect finds the same row, rewritten or not.
module _ {ℓ} {A : Type ℓ} (w v : A → Bool) (u : A → A) where
  pub find-update_first-some :
      (xs : List A) (r : A)
      → ((x : A) → v (u x) ≡ v x)
      → find v xs ≡ some r
      → (r' : A) × (find v (update_first w u xs) ≡ some r') × ((r' ≡ r) ⊎ (r' ≡ u r))
  find-update_first-some [] r same h = absurd (ground arith)
  find-update_first-some (x ∷ xs) r same h = elim (Bool-cases (v x)) [
    | inl here ↦ elim (Bool-cases (w x)) [
      | inl hit ↦ (u x, ground (arith, here, hit, same x), inr (ground (arith, here, h)))
      | inr miss ↦ (x, ground (arith, here, miss), inl (ground (arith, here, h)))
    ]
    | inr there ↦
        let (r', found, is) = find-update_first-some xs r same (ground (arith, there, h)) in
        elim (Bool-cases (w x)) [
          | inl hit ↦ (r, ground (arith, there, hit, same x, h), inl refl)
          | inr miss ↦ (r', ground (arith, there, miss, found), is)
        ]
  ]

  pub find-update_first-none :
      (xs : List A)
      → ((x : A) → v (u x) ≡ v x)
      → find v xs ≡ none
      → find v (update_first w u xs) ≡ none
  find-update_first-none [] same h = refl
  find-update_first-none (x ∷ xs) same h = ground (arith, same x, find-update_first-none xs same)

-- A test that no row passes fails of the row that is found.
module _ {ℓ} {A : Type ℓ} (c w : A → Bool) where
  pub find-fresh : (xs : List A) (r : A) → find w xs ≡ some r → any c xs ≡ false → c r ≡ false
  find-fresh [] r h k = absurd (ground arith)
  find-fresh (x ∷ xs) r h k = ground (arith, find-fresh xs r)
