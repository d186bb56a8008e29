-- ===== src/Base/Collation.antt =====
-- ORDER BY a text under a collation, as the comparison of two keys, and LIMIT.
use Prim.Native.Nat.{ℕ, zero, suc}
use Prim.Native.String.{String}
use mathlib.Core.Path.{◌≡◌, refl, ap, subst, ◌∙◌, sym}
use mathlib.Core.Logic.{inl, inr}
use mathlib.Core.Bool.{Bool, true, false, not}
use mathlib.Core.List.{List, [], ◌∷◌, ◌++◌}
use update_service.Base.Test.{Bool-cases, if◌then◌else◌}
use update_service.Base.Lists.{All, take}
use update_service.Base.Table.{select_where}

-- What the documentation of a collation promises: `le` is a total order of the texts.
pub record IsCollation (le : String → String → Bool) : Type 0 where
  pub total : (a b : String) → le a b ≡ false → le b a ≡ true
  pub trans : (a b c : String) → le a b ≡ true → le b c ≡ true → le a c ≡ true

module _ {A : Type 0} (le : String → String → Bool) (key : A → String) where
  abbrev pub insert_by_key : A → List A → List A
  insert_by_key x [] = x ∷ []
  insert_by_key x (y ∷ ys) =
      let rest = insert_by_key x ys in if le (key x) (key y) then x ∷ (y ∷ ys) else y ∷ rest

  -- `ORDER BY key`
  abbrev pub order_by_key : List A → List A
  order_by_key [] = []
  order_by_key (x ∷ xs) = insert_by_key x (order_by_key xs)

  -- `key > ?`
  abbrev pub is_behind : String → A → Bool
  is_behind cursor x = not (le (key x) cursor)

  -- Strictly before, where `le` is total.
  abbrev pub Before : A → A → Type 0
  Before x y = le (key y) (key x) ≡ false

  -- The collation tells the key of the row from those of the rows.
  abbrev pub Differs : A → List A → Type 0
  Differs x ys = All (λ y. (le (key x) (key y) ≡ true → Before x y)) ys

  -- No two rows have keys that the collation takes for the same, which the primary key sees to.
  abbrev pub AreDistinct : List A → Type 0
  AreDistinct [] = Unit
  AreDistinct (x ∷ xs) = Differs x xs × AreDistinct xs

  -- Each row is strictly before the next ones.
  abbrev pub Rising : List A → Type 0
  Rising [] = Unit
  Rising (x ∷ xs) = All (Before x) xs × Rising xs

  module _ (P : A → Type 0) where
    pub All-insert_by_key : (x : A) (ys : List A) → P x → All P ys → All P (insert_by_key x ys)
    All-insert_by_key x [] h k = (h, tt)
    All-insert_by_key x (y ∷ ys) h k = elim (Bool-cases (le (key x) (key y))) [
      | inl e ↦ rw e (h, k)
      | inr e ↦ rw e (k.0, All-insert_by_key x ys h k.1)
    ]

    pub All-order_by_key : (xs : List A) → All P xs → All P (order_by_key xs)
    All-order_by_key [] h = tt
    All-order_by_key (x ∷ xs) h =
        All-insert_by_key x (order_by_key xs) h.0 (All-order_by_key xs h.1)

    pub All-select_where : (p : A → Bool) (xs : List A) → All P xs → All P (select_where p xs)
    All-select_where p [] h = tt
    All-select_where p (x ∷ xs) h = elim (Bool-cases (p x)) [
      | inl e ↦ rw e (h.0, All-select_where p xs h.1)
      | inr e ↦ rw e (All-select_where p xs h.1)
    ]

    All-map : (Q : A → Type 0) (xs : List A) → ((x : A) → P x → Q x) → All P xs → All Q xs
    All-map Q [] f h = tt
    All-map Q (x ∷ xs) f h = (f x h.0, All-map Q xs f h.1)

    pub All-last :
        (k : ℕ) (xs front : List A) (last : A)
        → take k xs ≡ front ++ (last ∷ [])
        → All P xs
        → P last
    All-last zero xs [] last e h = absurd (cc e)
    All-last zero xs (f ∷ front) last e h = absurd (cc e)
    All-last (suc k) [] [] last e h = absurd (cc e)
    All-last (suc k) [] (f ∷ front) last e h = absurd (cc e)
    All-last (suc k) (x ∷ xs) [] last e h = let same : x ≡ last = cc e in subst P same h.0
    All-last (suc k) (x ∷ xs) (f ∷ front) last e h = All-last k xs front last (cc e) h.1

  module _ (laws : IsCollation le) where
    Before-trans : (x y z : A) → Before x y → Before y z → Before x z
    Before-trans x y z h k = elim (Bool-cases (le (key z) (key x))) [
      | inl e ↦ absurd (cc (k, laws.trans (key z) (key x) (key y) e (laws.total (key y) (key x) h)))
      | inr e ↦ e
    ]

    Rising-insert_by_key :
        (x : A) (ys : List A) → Differs x ys → Rising ys → Rising (insert_by_key x ys)
    Rising-insert_by_key x [] d r = (tt, tt)
    Rising-insert_by_key x (y ∷ ys) d r = elim (Bool-cases (le (key x) (key y))) [
      | inl e ↦
          rw e
            ((d.0 e, All-map (Before y) (Before x) ys (λ z k. Before-trans x y z (d.0 e) k) r.0), r)
      | inr e ↦ rw e (All-insert_by_key (Before y) x ys e r.0, Rising-insert_by_key x ys d.1 r.1)
    ]

    pub Rising-order_by_key : (xs : List A) → AreDistinct xs → Rising (order_by_key xs)
    Rising-order_by_key [] d = tt
    Rising-order_by_key (x ∷ xs) d =
        Rising-insert_by_key x (order_by_key xs)
          (All-order_by_key (λ y. (le (key x) (key y) ≡ true → Before x y)) xs d.0)
          (Rising-order_by_key xs d.1)

    insert_first :
        (x : A) (ys : List A)
        → All (λ y. le (key x) (key y) ≡ true) ys
        → insert_by_key x ys ≡ x ∷ ys
    insert_first x [] h = refl
    insert_first x (y ∷ ys) h = rw (h.0) refl

    module _ (p : A → Bool) where
      select_where-insert_by_key :
          (x : A) (ys : List A)
          → Rising ys
          → select_where p (insert_by_key x ys)
            ≡ (if p x then insert_by_key x (select_where p ys) else select_where p ys)
      select_where-insert_by_key x [] r = refl
      select_where-insert_by_key x (y ∷ ys) r =
          let ih : select_where p (insert_by_key x ys)
              ≡ (if p x then insert_by_key x (select_where p ys) else select_where p ys) =
            select_where-insert_by_key x ys r.1 in
          elim (Bool-cases (le (key x) (key y))) [
            | inl e ↦ elim (Bool-cases (p x)) [
              | inl t ↦ rw (
                e,
                t,
                insert_first x (select_where p (y ∷ ys)) (
                    All-select_where (λ z. le (key x) (key z) ≡ true) p (y ∷ ys)
                      (
                        e,
                        All-map (Before y) (λ z. le (key x) (key z) ≡ true) ys
                            (λ z k.
                              laws.trans (key x) (key y) (key z) e (laws.total (key z) (key y) k))
                            r.0,
                      )),
              )
              | inr f ↦ rw (e, f) refl
            ]
            | inr e ↦ elim (Bool-cases (p y)) [
              | inl t ↦ elim (Bool-cases (p x)) [
                | inl u ↦
                    let rest : select_where p (insert_by_key x ys)
                        ≡ insert_by_key x (select_where p ys) =
                      rw u at ih in
                    rw (e, t, u, e) (ap (◌∷◌ y) rest)
                | inr f ↦
                    let rest : select_where p (insert_by_key x ys) ≡ select_where p ys =
                      rw f at ih in
                    rw (e, t, f) (ap (◌∷◌ y) rest)
              ]
              | inr n ↦ rw (e, n) ih
            ]
          ]

      -- WHERE before ORDER BY is WHERE behind it.
      pub order_by_key-select_where :
          (xs : List A)
          → AreDistinct xs
          → order_by_key (select_where p xs) ≡ select_where p (order_by_key xs)
      order_by_key-select_where [] d = refl
      order_by_key-select_where (x ∷ xs) d =
          let moved : select_where p (insert_by_key x (order_by_key xs)) ≡ (
              if p x
              then insert_by_key x (select_where p (order_by_key xs))
              else select_where p (order_by_key xs)) =
            select_where-insert_by_key x (order_by_key xs) (Rising-order_by_key xs d.1) in
          let same : order_by_key (select_where p xs) ≡ select_where p (order_by_key xs) =
            order_by_key-select_where xs d.1 in
          elim (Bool-cases (p x)) [
            | inl t ↦
                let here : select_where p (insert_by_key x (order_by_key xs))
                    ≡ insert_by_key x (select_where p (order_by_key xs)) =
                  rw t at moved in
                rw t (ap (insert_by_key x) same ∙ sym here)
            | inr n ↦
                let here : select_where p (insert_by_key x (order_by_key xs))
                    ≡ select_where p (order_by_key xs) =
                  rw n at moved in
                rw n (same ∙ sym here)
          ]

  module _ (p : A → Bool) where
    pub select_where-AreDistinct : (xs : List A) → AreDistinct xs → AreDistinct (select_where p xs)
    select_where-AreDistinct [] d = tt
    select_where-AreDistinct (x ∷ xs) d = elim (Bool-cases (p x)) [
      | inl e ↦ rw e (
        All-select_where (λ y. (le (key x) (key y) ≡ true → Before x y)) p xs d.0,
        select_where-AreDistinct xs d.1,
      )
      | inr e ↦ rw e (select_where-AreDistinct xs d.1)
    ]

    pub select_where-All : (xs : List A) → All (λ x. p x ≡ true) (select_where p xs)
    select_where-All [] = tt
    select_where-All (x ∷ xs) = elim (Bool-cases (p x)) [
      | inl e ↦ rw e (e, select_where-All xs)
      | inr e ↦ rw e (select_where-All xs)
    ]

    -- A test that follows from another has no effect before it.
    pub select_where-twice :
        (q : A → Bool) (xs : List A)
        → ((x : A) → p x ≡ true → q x ≡ true)
        → select_where p (select_where q xs) ≡ select_where p xs
    select_where-twice q [] f = refl
    select_where-twice q (x ∷ xs) f =
        let rest : select_where p (select_where q xs) ≡ select_where p xs =
          select_where-twice q xs f in
        elim (Bool-cases (p x)) [
          | inl e ↦ rw (f x e, e) (ap (◌∷◌ x) rest)
          | inr e ↦ elim (Bool-cases (q x)) [ inl t ↦ rw (t, e) rest | inr n ↦ rw (n, e) rest ]
        ]
