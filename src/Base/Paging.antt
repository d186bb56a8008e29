-- ===== src/Base/Paging.antt =====
-- Pages of a table: ORDER BY and LIMIT, and a cursor.
use Prim.Native.Nat.{ℕ, zero, suc, ◌+◌}
use Prim.Native.String.{String}
use mathlib.Core.Path.{◌≡◌, refl, ap, subst, ◌∙◌, sym}
use mathlib.Core.Logic.{inl, inr}
use mathlib.Core.Bool.{Bool, true}
use mathlib.Core.List.{List, [], ◌∷◌, ◌++◌}
use native.Mathlib.Omega.{arith}
use update_service.Base.Test.{Bool-cases}
use update_service.Base.Lists.{All, take}
use update_service.Base.Table.{select_where}
use update_service.Base.Collation.{
  IsCollation, is_behind, order_by_key, Before, Rising, AreDistinct, All-last, Rising-order_by_key,
  order_by_key-select_where,
}

module _ {A : Type 0} (le : String → String → Bool) (key : A → String) (laws : IsCollation le) where
  le_refl : (a : String) → le a a ≡ true
  le_refl a = elim (Bool-cases (le a a)) [ inl e ↦ e | inr e ↦ laws.total a a e ]

  behind-All :
      (x : A) (xs : List A)
      → All (Before le key x) xs
      → select_where (is_behind le key (key x)) xs ≡ xs
  behind-All x [] h = refl
  behind-All x (y ∷ ys) h = rw h.0 (ap (◌∷◌ y) (behind-All x ys h.1))

  take-suc : (k m : ℕ) (x : A) (xs : List A) → take (suc k + m) (x ∷ xs) ≡ x ∷ take (k + m) xs
  take-suc k m x xs = ap (λ n. take n (x ∷ xs)) (same k m)
    where
      same : (k m : ℕ) → suc k + m ≡ suc (k + m)
      same k m = omega arith

  zero_add : (m : ℕ) → 0 + m ≡ m
  zero_add m = omega arith

  take_nil : (n : ℕ) → take {A = A} n [] ≡ []
  take_nil zero = refl
  take_nil (suc n) = refl

  take_one :
      (k m : ℕ) (x : A) (xs : List A) → take k xs ≡ [] → x ∷ take m xs ≡ take (suc k + m) (x ∷ xs)
  take_one zero m x xs h = sym (take-suc zero m x xs ∙ ap (λ n. x ∷ take n xs) (zero_add m))
  take_one (suc k) m x [] h =
      ap (◌∷◌ x) (take_nil m ∙ sym (take_nil (suc k + m))) ∙ sym (take-suc (suc k) m x [])
  take_one (suc k) m x (y ∷ xs) h = absurd (cc h)

  next-Rising :
      (k m : ℕ) (xs front : List A) (last : A)
      → Rising le key xs
      → take k xs ≡ front ++ (last ∷ [])
      → take k xs ++ take m (select_where (is_behind le key (key last)) xs) ≡ take (k + m) xs
  next-Rising zero m xs [] last r e = absurd (cc e)
  next-Rising zero m xs (f ∷ front) last r e = absurd (cc e)
  next-Rising (suc k) m [] [] last r e = absurd (cc e)
  next-Rising (suc k) m [] (f ∷ front) last r e = absurd (cc e)
  next-Rising (suc k) m (x ∷ xs) [] last r e =
      let same : x ≡ last = cc e in
      let none_left : take k xs ≡ [] = cc e in
      let skipped : select_where (is_behind le key (key x)) (x ∷ xs) ≡ xs =
        rw (le_refl (key x)) (behind-All x xs r.0) in
      subst
        (λ z.
          take (suc k) (x ∷ xs) ++ take m (select_where (is_behind le key (key z)) (x ∷ xs))
          ≡ take (suc k + m) (x ∷ xs))
        same (rw (skipped, none_left) (take_one k m x xs none_left))
  next-Rising (suc k) m (x ∷ xs) (f ∷ front) last r e =
      let rest : take k xs ≡ front ++ (last ∷ []) = cc e in
      let later : Before le key x last =
        All-last le key (Before le key x) k xs front last rest r.0 in
      let ih : take k xs ++ take m (select_where (is_behind le key (key last)) xs)
          ≡ take (k + m) xs =
        next-Rising k m xs front last r.1 rest in
      rw (laws.total (key last) (key x) later, take-suc k m x xs) (ap (◌∷◌ x) ih)

  -- A page, and the page behind its last row, are one page of both sizes.
  pub take-order_by_key :
      (k m : ℕ) (xs front : List A) (last : A)
      → AreDistinct le key xs
      → take k (order_by_key le key xs) ≡ front ++ (last ∷ [])
      → take k (order_by_key le key xs)
          ++ take m (order_by_key le key (select_where (is_behind le key (key last)) xs))
        ≡ take (k + m) (order_by_key le key xs)
  take-order_by_key k m xs front last d e =
      rw (order_by_key-select_where le key laws (is_behind le key (key last)) xs d) (
        next-Rising k m (order_by_key le key xs) front last (Rising-order_by_key le key laws xs d)
          e)
