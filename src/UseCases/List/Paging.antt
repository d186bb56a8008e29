-- ===== src/UseCases/List/Paging.antt =====
-- list.go: what a client gets that asks for the pages one after the other.
use update_service.Base.{
  ℕ, suc, ◌+◌, ◌≡◌, refl, ap, ◌∙◌, sym, arith, inl, inr, String, Bool, true, ◌&&◌, Bool-cases,
  Option, none, some, List, [], ◌∷◌, ◌++◌, map, take, select_where, IsCollation, AreDistinct,
  is_behind, order_by_key, All-last, All-order_by_key, select_where-AreDistinct, select_where-All,
  select_where-twice, take-order_by_key,
}
use update_service.Domain.Operation.{OperationStatus, Operation}
use update_service.Effect.{Env, World, IsReliable, Returns, ◌>>=◌, pure, call}
use update_service.Effect.Tables.{OperationRow}
use update_service.Repositories.Operations.{row_to_operation}
use update_service.Repositories.Operations.Listing.{
  has_status, has_processor, has_passed, filtered, page, page_size, list,
}
use update_service.UseCases.List.{ListOperationInput, filter_of, execute}

add_suc : (k n : ℕ) → suc k + n ≡ suc (k + n)
add_suc k n = omega arith

positive_size : (k n : ℕ) → page_size (suc k + n) ≡ suc k + n
positive_size k n = ap page_size (add_suc k n) ∙ sym (add_suc k n)

map-append : {A B : Type 0} (f : A → B) (xs ys : List A) → map f (xs ++ ys) ≡ map f xs ++ map f ys
map-append f [] ys = refl
map-append f (x ∷ xs) ys = ap (◌∷◌ (f x)) (map-append f xs ys)

module _ (le : String → String → Bool) (laws : IsCollation le) (status : Option OperationStatus)
    (processor : Option String) where
  abbrev input : Option String → ℕ → ListOperationInput
  input cursor limit = record {
    status = status;
    processor = processor;
    cursor = cursor;
    limit = limit;
  }

  abbrev selected : List OperationRow → List OperationRow
  selected rows =
      select_where (λ row. has_status le status row && has_processor le processor row) rows

  -- What is behind a row that is behind the cursor is behind the cursor.
  behind_trans :
      (c : String) (last x : OperationRow)
      → is_behind le OperationRow.id c last ≡ true
      → is_behind le OperationRow.id last.id x ≡ true
      → is_behind le OperationRow.id c x ≡ true
  behind_trans c last x h k = elim (Bool-cases (le x.id c)) [
    | inl e ↦ elim (Bool-cases (le last.id c)) [
      | inl t ↦ absurd (cc (h, t))
      | inr f ↦
          let last_x : le x.id last.id ≡ true =
            laws.trans x.id c last.id e (laws.total last.id c f) in
          absurd (cc (k, last_x))
    ]
    | inr e ↦ rw e refl
  ]

  -- The cursor of the next page takes the place of the one before.
  next_filtered :
      (cursor : Option String) (rows front : List OperationRow) (last : OperationRow) (k : ℕ)
      → take k (order_by_key le OperationRow.id (has_passed le cursor (selected rows)))
        ≡ front ++ (last ∷ [])
      → select_where (is_behind le OperationRow.id last.id) (selected rows)
        ≡ select_where (is_behind le OperationRow.id last.id) (has_passed le cursor (selected rows))
  next_filtered none rows front last k e = refl
  next_filtered (some c) rows front last k e =
      let behind : OperationRow → Bool = is_behind le OperationRow.id c in
      let there : is_behind le OperationRow.id c last ≡ true =
        All-last le OperationRow.id (λ row. is_behind le OperationRow.id c row ≡ true) k
          (order_by_key le OperationRow.id
            (select_where (is_behind le OperationRow.id c) (selected rows)))
          front last e
          (All-order_by_key le OperationRow.id (λ row. is_behind le OperationRow.id c row ≡ true)
            (select_where (is_behind le OperationRow.id c) (selected rows))
            (select_where-All le OperationRow.id (is_behind le OperationRow.id c)
              (selected rows))) in
      sym (
        select_where-twice le OperationRow.id (is_behind le OperationRow.id last.id)
          (is_behind le OperationRow.id c) (selected rows) (λ x h. behind_trans c last x there h))

  passed-AreDistinct :
      (cursor : Option String) (rows : List OperationRow)
      → AreDistinct le OperationRow.id rows
      → AreDistinct le OperationRow.id (has_passed le cursor (selected rows))
  passed-AreDistinct none rows d =
      select_where-AreDistinct le OperationRow.id
        (λ row. has_status le status row && has_processor le processor row) rows d
  passed-AreDistinct (some c) rows d =
      select_where-AreDistinct le OperationRow.id (is_behind le OperationRow.id c) (selected rows) (
        select_where-AreDistinct le OperationRow.id
          (λ row. has_status le status row && has_processor le processor row) rows d)

  next_page :
      (cursor : Option String) (rows front : List OperationRow) (last : OperationRow) (k m : ℕ)
      → AreDistinct le OperationRow.id rows
      → page le (filter_of (input cursor (suc k))) rows ≡ front ++ (last ∷ [])
      → page le (filter_of (input cursor (suc k))) rows
          ++ page le (filter_of (input (some last.id) (suc m))) rows
        ≡ page le (filter_of (input cursor (suc k + suc m))) rows
  unfolding page filtered filter_of
  next_page cursor rows front last k m d e =
      rw
        (
          next_filtered cursor rows front last (suc k) e,
          positive_size k (suc m),
          positive_size k (suc m),
        )
        (take-order_by_key le OperationRow.id laws (suc k) (suc m)
          (has_passed le cursor (selected rows)) front last (passed-AreDistinct cursor rows d) e)

  -- While the outside works, a page and the page behind its last operation, one after the other,
  -- have the operations of one page of both sizes, in the same order.
  pub two_pages :
      (cursor : Option String) (e : Env) (w : World) (front : List OperationRow)
      (last : OperationRow) (k m : ℕ)
      → IsReliable e
      → AreDistinct le OperationRow.id w.db.operations
      → page le (filter_of (input cursor (suc k))) w.db.operations ≡ front ++ (last ∷ [])
      → Returns {A = List Operation × List Operation}
          ((do
            a ← execute le (input cursor (suc k))
            b ← execute le (input (some last.id) (suc m))
            c ← execute le (input cursor (suc k + suc m))
            pure (a.operations ++ b.operations, c.operations))
            e w)
          (λ r _. r.0 ≡ r.1)
  unfolding execute list call
  two_pages cursor e w front last k m reliable d h =
      rw (reliable w.calls, reliable (suc w.calls), reliable (suc (suc w.calls)))
        (sym (
            map-append row_to_operation (page le (filter_of (input cursor (suc k))) w.db.operations)
              (page le (filter_of (input (some last.id) (suc m))) w.db.operations))
          ∙ ap (map row_to_operation) (next_page cursor w.db.operations front last k m d h))
