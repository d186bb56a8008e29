-- ===== src/Base/Order.antt =====
-- What ORDER BY gives: the first row that passes a test has the least rank of those that do.
use Prim.Native.Nat.{ℕ, ◌≤◌}
use mathlib.Core.Path.{◌≡◌, ap, subst}
use mathlib.Core.Logic.{inl, inr}
use mathlib.Core.Bool.{Bool, true, false}
use mathlib.Core.Option.{Option, none, some}
use mathlib.Core.List.{List, [], ◌∷◌}
use native.Mathlib.Omega.{arith}
use update_service.Base.Test.{leb, Bool-cases}
use update_service.Base.Lists.{All}
use update_service.Base.Table.{find_where, order_by, insert_by}

abbrev value : {A : Type 0} → A → Option A → A
value x none = x
value x (some y) = y

module _ {A : Type 0} (rank : A → ℕ) where
  abbrev Sorted : List A → Type 0
  Sorted [] = Unit
  Sorted (x ∷ xs) = All (λ y. rank x ≤ rank y) xs × Sorted xs

  module _ (P : A → Type 0) where
    All-insert_by : (x : A) (xs : List A) → P x → All P xs → All P (insert_by rank x xs)
    unfolding insert_by
    All-insert_by x [] p h = (p, tt)
    All-insert_by x (y ∷ ys) p h = elim (Bool-cases (leb (rank x) (rank y))) [
      | inl e ↦ rw e (p, h)
      | inr e ↦ rw e (h.0, All-insert_by x ys p h.1)
    ]

    insert_by-All : (x : A) (xs : List A) → All P (insert_by rank x xs) → P x × All P xs
    unfolding insert_by
    insert_by-All x [] h = h
    insert_by-All x (y ∷ ys) h = elim (Bool-cases (leb (rank x) (rank y))) [
      | inl e ↦ (rw e at h)
      | inr e ↦
          let h' : P y × All P (insert_by rank x ys) = rw e at h in
          let k = insert_by-All x ys h'.1 in (k.0, (h'.0, k.1))
    ]

    -- What holds of the rows in order holds of the rows.
    pub order_by-All : (xs : List A) → All P (order_by rank xs) → All P xs
    unfolding order_by
    order_by-All [] h = tt
    order_by-All (x ∷ xs) h =
        let k = insert_by-All x (order_by rank xs) h in (k.0, order_by-All xs k.1)

  All-least :
      (y : A) (ys : List A)
      → (x : A) → rank x ≤ rank y
      → All (λ z. rank y ≤ rank z) ys
      → All (λ z. rank x ≤ rank z) ys
  All-least y [] x h k = tt
  All-least y (z ∷ zs) x h k = (omega (arith, h, k.0), All-least y zs x h k.1)

  insert_by-Sorted : (x : A) (ys : List A) → Sorted ys → Sorted (insert_by rank x ys)
  unfolding insert_by
  insert_by-Sorted x [] h = (tt, tt)
  insert_by-Sorted x (y ∷ ys) h = elim (Bool-cases (leb (rank x) (rank y))) [
    | inl e ↦
        let le : rank x ≤ rank y = ground (arith, e) in rw e ((le, All-least y ys x le h.0), h)
    | inr e ↦ rw e (
      All-insert_by (λ z. rank y ≤ rank z) x ys (ground (arith, e)) h.0,
      insert_by-Sorted x ys h.1,
    )
  ]

  order_by-Sorted : (xs : List A) → Sorted (order_by rank xs)
  unfolding order_by
  order_by-Sorted [] = tt
  order_by-Sorted (x ∷ xs) = insert_by-Sorted x (order_by rank xs) (order_by-Sorted xs)

  ordered : (P : A → Type 0) (xs : List A) → All P xs → All P (order_by rank xs)
  unfolding order_by
  ordered P [] a = tt
  ordered P (x ∷ xs) a = All-insert_by P x (order_by rank xs) a.0 (ordered P xs a.1)

  module _ (p : A → Bool) where
    -- The rows that pass the test have no less a rank than `n`.
    abbrev pub IsLeast : A → List A → Type 0
    IsLeast n xs = All (λ m. p m ≡ true → rank n ≤ rank m) xs

    later-IsLeast : (n : A) (ys : List A) → All (λ z. rank n ≤ rank z) ys → IsLeast n ys
    later-IsLeast n [] h = tt
    later-IsLeast n (y ∷ ys) h = (λ _. h.0, later-IsLeast n ys h.1)

    first-IsLeast : (n : A) (xs : List A) → Sorted xs → find_where p xs ≡ some n → IsLeast n xs
    first-IsLeast n [] s h = tt
    first-IsLeast n (x ∷ xs) s h = elim (Bool-cases (p x)) [
      | inl e ↦
          let same : some x ≡ some n = rw e at h in
          subst (λ m. IsLeast m (x ∷ xs)) (ap (value x) same)
            ((λ _. omega arith), later-IsLeast x xs s.0)
      | inr e ↦ (λ t. absurd (cc (e, t)), first-IsLeast n xs s.1 (rw e at h))
    ]

    -- The first row of ORDER BY that passes the test.
    pub find_where-IsLeast :
        (n : A) (xs : List A) → find_where p (order_by rank xs) ≡ some n → IsLeast n xs
    find_where-IsLeast n xs h =
        order_by-All (λ m. p m ≡ true → rank n ≤ rank m) xs
          (first-IsLeast n (order_by rank xs) (order_by-Sorted xs) h)

    none-All : (xs : List A) → find_where p xs ≡ none → All (λ m. p m ≡ false) xs
    none-All [] h = tt
    none-All (x ∷ xs) h = elim (Bool-cases (p x)) [
      | inl e ↦ absurd (cc (rw e at h))
      | inr e ↦ (e, none-All xs (rw e at h))
    ]

    pub find_where-none :
        (xs : List A) → find_where p (order_by rank xs) ≡ none → All (λ m. p m ≡ false) xs
    find_where-none xs h = order_by-All (λ m. p m ≡ false) xs (none-All (order_by rank xs) h)

    find_where-All :
        (P : A → Type 0) (n : A) (xs : List A)
        → All P xs
        → find_where p xs ≡ some n
        → P n × (p n ≡ true)
    find_where-All P n [] a h = absurd (cc h)
    find_where-All P n (x ∷ xs) a h = elim (Bool-cases (p x)) [
      | inl e ↦ subst (λ m. P m × (p m ≡ true)) (ap (value x) (rw e at h)) (a.0, e)
      | inr e ↦ find_where-All P n xs a.1 (rw e at h)
    ]

    -- A row that ORDER BY puts first has what all rows have, and passes the test.
    pub first-All :
        (P : A → Type 0) (n : A) (xs : List A)
        → All P xs
        → find_where p (order_by rank xs) ≡ some n
        → P n × (p n ≡ true)
    first-All P n xs a h = find_where-All P n (order_by rank xs) (ordered P xs a) h
