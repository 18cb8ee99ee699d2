-- ===== src/Base/Sort.antt =====
-- `ORDER BY` as a stable insertion sort, with what it keeps of the rows.
use Prim.Native.Nat.{ℕ, zero, suc}
use mathlib.Core.Path.{◌≡◌, refl}
use mathlib.Core.Bool.{Bool, true, false}
use mathlib.Core.List.{List, [], ◌∷◌}
use mathlib.Core.Logic.{inl, inr}
use native.Mathlib.Omega.{arith}
use ivyticketing.Base.Compare.{if◌then◌else◌, Bool-cases}
use ivyticketing.Base.Lists.{All, filter, count_where, take}

module _ {ℓ} {A : Type ℓ} where
  unfoldable pub insert_by : (A → A → Bool) → A → List A → List A
  insert_by le x [] = x ∷ []
  insert_by le x (y ∷ l) = if le x y then x ∷ y ∷ l else y ∷ insert_by le x l

  unfoldable pub sort_by : (A → A → Bool) → List A → List A
  unfolding insert_by
  sort_by le [] = []
  sort_by le (x ∷ xs) = insert_by le x (sort_by le xs)

module _ {ℓ} {A : Type ℓ} where
  pub All-weaken {κ κ'} :
      {P : A → Type κ} {Q : A → Type κ'} (xs : List A) → ((x : A) → P x → Q x) → All P xs → All Q xs
  All-weaken [] h a = tt
  All-weaken (x ∷ xs) h a = (h x a.0, All-weaken xs h a.1)

  pub All-both {κ κ'} :
      (P : A → Type κ) (Q : A → Type κ') (xs : List A)
      → All P xs
      → All Q xs
      → All (λ x. P x × Q x) xs
  All-both P Q [] a b = tt
  All-both P Q (x ∷ xs) a b = ((a.0, b.0), All-both P Q xs a.1 b.1)

  pub All-take {κ} : (P : A → Type κ) (n : ℕ) (xs : List A) → All P xs → All P (take n xs)
  All-take P zero xs a = tt
  All-take P (suc n) [] a = tt
  All-take P (suc n) (x ∷ xs) a = (a.0, All-take P n xs a.1)

  -- A filter keeps what holds of every row, and its own test holds of every row kept.
  pub All-filter {κ} :
      (P : A → Type κ) (p : A → Bool) (xs : List A)
      → All P xs
      → All (λ x. P x × (p x ≡ true)) (filter p xs)
  All-filter P p [] a = tt
  All-filter P p (x ∷ xs) a = elim (Bool-cases (p x)) [
    | inl e ↦ rw e ((a.0, e), All-filter P p xs a.1)
    | inr e ↦ rw e (All-filter P p xs a.1)
  ]

module _ {A : Type 0} (le : A → A → Bool) where
  All-insert_by {κ} :
      (P : A → Type κ) (x : A) (xs : List A) → P x → All P xs → All P (insert_by le x xs)
  unfolding insert_by
  All-insert_by P x [] h a = (h, tt)
  All-insert_by P x (y ∷ xs) h a = elim (Bool-cases (le x y)) [
    | inl e ↦ rw e (h, a)
    | inr e ↦ rw e (a.0, All-insert_by P x xs h a.1)
  ]

  pub All-sort_by {κ} : (P : A → Type κ) (xs : List A) → All P xs → All P (sort_by le xs)
  unfolding sort_by
  All-sort_by P [] a = tt
  All-sort_by P (x ∷ xs) a = All-insert_by P x (sort_by le xs) a.0 (All-sort_by P xs a.1)

  count_where-insert_by :
      (p : A → Bool) (x : A) (xs : List A)
      → count_where p (insert_by le x xs) ≡ count_where p (x ∷ xs)
  unfolding insert_by
  count_where-insert_by p x [] = refl
  count_where-insert_by p x (y ∷ xs) = ground (arith, count_where-insert_by p x xs)

  pub count_where-sort_by :
      (p : A → Bool) (xs : List A) → count_where p (sort_by le xs) ≡ count_where p xs
  unfolding sort_by
  count_where-sort_by p [] = refl
  count_where-sort_by p (x ∷ xs) =
      omega (arith, count_where-insert_by p x (sort_by le xs), count_where-sort_by p xs)

  -- The head is not after any other row.
  abbrev pub Sorted : List A → Type 0
  Sorted [] = Unit
  Sorted (x ∷ xs) = All (λ y. le x y ≡ true) xs × Sorted xs

-- A sort by a comparison that refines a transitive order sorts by that order, also where the
-- comparison itself is not transitive.
module _ {A : Type 0} (le coarse : A → A → Bool)
    (before : (x y : A) → le x y ≡ true → coarse x y ≡ true)
    (after : (x y : A) → le x y ≡ false → coarse y x ≡ true)
    (trans : (x y z : A) → coarse x y ≡ true → coarse y z ≡ true → coarse x z ≡ true) where
  insert_by-Sorted : (x : A) (xs : List A) → Sorted coarse xs → Sorted coarse (insert_by le x xs)
  unfolding insert_by
  insert_by-Sorted x [] s = (tt, tt)
  insert_by-Sorted x (y ∷ xs) s = elim (Bool-cases (le x y)) [
    | inl e ↦ rw e ((before x y e, All-weaken xs (λ z h. trans x y z (before x y e) h) s.0), s)
    | inr e ↦ rw e (
      All-insert_by le (λ z. coarse y z ≡ true) x xs (after x y e) s.0,
      insert_by-Sorted x xs s.1,
    )
  ]

  pub sort_by-Sorted : (xs : List A) → Sorted coarse (sort_by le xs)
  unfolding sort_by
  sort_by-Sorted [] = tt
  sort_by-Sorted (x ∷ xs) = insert_by-Sorted x (sort_by le xs) (sort_by-Sorted xs)

-- For an order that is total and transitive, a sort commutes with a filter.
module _ {A : Type 0} (le : A → A → Bool) (total : (x y : A) → le x y ≡ false → le y x ≡ true)
    (trans : (x y z : A) → le x y ≡ true → le y z ≡ true → le x z ≡ true) where
  -- Inserting before every row puts the row in front.
  insert_by-front : (x : A) (xs : List A) → All (λ y. le x y ≡ true) xs → insert_by le x xs ≡ x ∷ xs
  unfolding insert_by
  insert_by-front x [] a = refl
  insert_by-front x (y ∷ xs) a = rw a.0

  filter-insert_by :
      (p : A → Bool) (x : A) (xs : List A)
      → Sorted le xs
      → filter p (insert_by le x xs) ≡ (if p x then insert_by le x (filter p xs) else filter p xs)
  unfolding insert_by
  filter-insert_by p x [] s = refl
  filter-insert_by p x (y ∷ xs) s = elim (Bool-cases (le x y)) [
    | inl e ↦ ground (
      arith,
      e,
      insert_by-front x (filter p (y ∷ xs)) (
          All-weaken _ (λ z h. h.0)
            (All-filter (λ z. le x z ≡ true) p (y ∷ xs)
              (e, All-weaken xs (λ z h. trans x y z e h) s.0))),
    )
    | inr e ↦ ground (arith, e, filter-insert_by p x xs s.1)
  ]

  pub filter-sort_by :
      (p : A → Bool) (xs : List A) → filter p (sort_by le xs) ≡ sort_by le (filter p xs)
  unfolding sort_by
  filter-sort_by p [] = refl
  filter-sort_by p (x ∷ xs) = ground (
    arith,
    filter-insert_by p x (sort_by le xs) (sort_by-Sorted le le (λ u v h. h) total trans xs),
    filter-sort_by p xs,
  )
