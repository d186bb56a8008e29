-- ===== src/Base/Table.antt =====
-- A database table as the list of its rows, with the statements that the repositories run on it.
use Prim.Native.Nat.{ℕ, suc}
use Prim.Native.String.{String}
use mathlib.Core.Path.{◌≡◌, refl, ap}
use mathlib.Core.Logic.{inl, inr}
use mathlib.Core.Bool.{Bool, ◌&&◌}
use mathlib.Core.Option
use mathlib.Core.Option.{Option, none, some}
use mathlib.Core.List.{List, [], ◌∷◌}
use native.Mathlib.Omega.{arith}
use text.Mathlib.TextEquality.{eq_iff}
use update_service.Base.Test.{ltb, leb, if◌then◌else◌, Bool-cases, is_some}
use update_service.Base.Text.{str_eq}

module _ {ℓ} {A : Type ℓ} where
  -- `SELECT … WHERE p LIMIT 1`
  abbrev pub find_where : (A → Bool) → List A → Option A
  find_where p [] = none
  find_where p (x ∷ xs) = if p x then some x else find_where p xs

  -- `SELECT … WHERE p`
  abbrev pub select_where : (A → Bool) → List A → List A
  select_where p [] = []
  select_where p (x ∷ xs) = let rest = select_where p xs in if p x then x ∷ rest else rest

  -- `SELECT COUNT(*) … WHERE p`, and the rows that an UPDATE affects.
  abbrev pub count_where : (A → Bool) → List A → ℕ
  count_where p [] = 0
  count_where p (x ∷ xs) = let rest = count_where p xs in if p x then suc rest else rest

  -- `UPDATE … SET f WHERE p`
  abbrev pub update_where : (A → Bool) → (A → A) → List A → List A
  update_where p f [] = []
  update_where p f (x ∷ xs) = (if p x then f x else x) ∷ update_where p f xs

  -- `DELETE … WHERE p`
  abbrev pub delete_where : (A → Bool) → List A → List A
  delete_where p [] = []
  delete_where p (x ∷ xs) = let rest = delete_where p xs in if p x then rest else x ∷ rest

  -- An UPDATE that affects no row changes nothing.
  pub update_where-none :
      (p : A → Bool) (f : A → A) (xs : List A) → find_where p xs ≡ none → update_where p f xs ≡ xs
  update_where-none p f [] h = refl
  update_where-none p f (x ∷ xs) h = elim (Bool-cases (p x)) [
    | inl e ↦ absurd (some_ne_none (rw e at h))
    | inr e ↦ rw e (ap (◌∷◌ x) (update_where-none p f xs (rw e at h)))
  ]
    where
      some_ne_none : some x ≡ none → ⊥
      some_ne_none q = cc

-- Tables whose rows have a text for a key.
module _ {A : Type 0} (key : A → String) where
  abbrev pub has_key : String → A → Bool
  has_key k x = str_eq (key x) k

  abbrev pub find_key : String → List A → Option A
  find_key k xs = find_where (has_key k) xs

  -- The rows have different keys.
  abbrev pub IsKeyed : List A → Type 0
  IsKeyed [] = Unit
  IsKeyed (x ∷ xs) = (find_key (key x) xs ≡ none) × IsKeyed xs

  -- A row of a table is found by its key.
  pub find_key-key : (k : String) (xs : List A) (x : A) → find_key k xs ≡ some x → key x ≡ k
  find_key-key k [] x h = cc
  find_key-key k (y ∷ xs) x h = ground (arith, eq_iff (key y) k, find_key-key k xs x)

  module _ (p : A → Bool) (f : A → A) (same : (x : A) → key (f x) ≡ key x) where
    key-if : (x : A) → key (if p x then f x else x) ≡ key x
    key-if x = ground (arith, same x)

    -- An UPDATE that keeps the keys acts on the row that a key finds.
    pub find_key-update_where :
        (k : String) (xs : List A)
        → find_key k (update_where p f xs)
          ≡ Option.map (λ x. if p x then f x else x) (find_key k xs)
    find_key-update_where k [] = refl
    find_key-update_where k (x ∷ xs) = rw (key-if x) (ground (arith, find_key-update_where k xs))

    pub update_where-IsKeyed : (xs : List A) → IsKeyed xs → IsKeyed (update_where p f xs)
    update_where-IsKeyed [] h = tt
    update_where-IsKeyed (x ∷ xs) h =
        (rw (key-if x, find_key-update_where (key x) xs, h.0), update_where-IsKeyed xs h.1)

  -- The row that a key finds, if it passes a test.
  abbrev pub passing : (A → Bool) → Option A → Option A
  passing q none = none
  passing q (some x) = if q x then some x else none

  -- `WHERE key = k AND q` in a table with different keys.
  pub find_where-and :
      (q : A → Bool) (k : String) (xs : List A)
      → IsKeyed xs
      → find_where (λ x. has_key k x && q x) xs ≡ passing q (find_key k xs)
  find_where-and q k [] h = refl
  find_where-and q k (x ∷ xs) h =
      ground (arith, find_where-and q k xs h.1, eq_iff (key x) k, absent)
    where
      absent : key x ≡ k → find_key k xs ≡ none
      absent e = rw e at h.0

module _ {ℓ} {A : Type ℓ} where
  -- A statement counts some row exactly when it finds one.
  pub count_where-find_where :
      (p : A → Bool) (xs : List A) → ltb 0 (count_where p xs) ≡ is_some (find_where p xs)
  count_where-find_where p [] = refl
  count_where-find_where p (x ∷ xs) = ground (arith, count_where-find_where p xs)

module _ {ℓ} {A : Type ℓ} (rank : A → ℕ) where
  unfoldable pub insert_by : A → List A → List A
  insert_by x [] = x ∷ []
  insert_by x (y ∷ ys) = if leb (rank x) (rank y) then x ∷ y ∷ ys else y ∷ insert_by x ys

  -- `ORDER BY rank ASC`
  unfoldable pub order_by : List A → List A
  unfolding insert_by
  order_by [] = []
  order_by (x ∷ xs) = insert_by x (order_by xs)

  -- `ORDER BY rank DESC LIMIT 1`: the first row of the greatest rank.
  abbrev pub greatest : List A → Option A
  greatest [] = none
  greatest (x ∷ xs) = larger x (greatest xs)
    where
      larger : A → Option A → Option A
      larger x none = some x
      larger x (some y) = if leb (rank y) (rank x) then some x else some y
