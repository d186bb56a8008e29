-- ===== src/Repositories/Operations/Listing.antt =====
-- operation_repository.go: `List` and `GetByIdempotencyKey`. How the server compares texts is the
-- columns' collation, here the parameter `le`; the filter is that of application/ports. A limit is
-- never below 0 here: one below 0 counts as 0.
use update_service.Base.{
  ℕ, zero, suc, String, Bool, true, false, ◌&&◌, Option, none, some, List, map, take, str_eq,
  find_where, select_where, order_by_key, is_behind, is_some, ◌∷◌, [],
}
use update_service.Domain.Json.{Json, obj, member, as_string}
use update_service.Domain.Operation.{OperationStatus, Operation}
use update_service.Domain.Text.{status_text}
use update_service.Effect.{external, M, ◌>>=◌, ◌>>◌, pure, guard, get_world, call}
use update_service.Effect.Tables.{OperationRow, IdempotencyRow}
use update_service.Repositories.Idempotency.{knows}
use update_service.Repositories.Operations.{row_to_operation, scanned}

-- `ports.OperationFilter`
pub record OperationFilter : Type 0 where
  pub status : Option OperationStatus
  pub processor : Option String
  pub cursor : Option String
  pub limit : ℕ

abbrev pub page_size : ℕ → ℕ
page_size zero = 50
page_size (suc n) = suc n

module _ (le : String → String → Bool) where
  -- `=` of a text column.
  abbrev same_text : String → String → Bool
  same_text a b = le a b && le b a

  unfoldable pub has_status : Option OperationStatus → OperationRow → Bool
  unfolding status_text
  has_status none row = true
  has_status (some s) row = same_text (status_text row.status) (status_text s)

  unfoldable pub has_processor : Option String → OperationRow → Bool
  has_processor none row = true
  has_processor (some p) row = same_text row.processor p

  abbrev pub has_passed : Option String → List OperationRow → List OperationRow
  has_passed none rows = rows
  has_passed (some cursor) rows = select_where (is_behind le OperationRow.id cursor) rows

  -- `WHERE status = ? AND processor = ? AND id > ?`, each part if the filter has it.
  unfoldable pub filtered : OperationFilter → List OperationRow → List OperationRow
  unfolding has_status has_processor
  filtered filter rows = has_passed filter.cursor (
      select_where (λ row. has_status filter.status row && has_processor filter.processor row) rows)

  -- `ORDER BY id LIMIT ?`
  unfoldable pub page : OperationFilter → List OperationRow → List OperationRow
  unfolding filtered
  page filter rows =
      take (page_size filter.limit) (order_by_key le OperationRow.id (filtered filter rows))

  -- `List`
  unfoldable pub list : OperationFilter → M (List Operation)
  unfolding call page
  list filter = do call; w ← get_world; pure (map row_to_operation (page filter w.db.operations))

-- `i.response->>'$.operation_id'`
abbrev answers : String → IdempotencyRow → OperationRow → Bool
answers key i row = str_eq i.key key && answered i.response
  where
    answered : Json → Bool
    answered (obj fs) = str_eq row.id (as_string (member "operation_id" fs))
    answered _ = false

-- `GetByIdempotencyKey`, which nothing calls: its statement names a column that is not there.
unfoldable pub get_by_idempotency_key : String → M (Option Operation)
unfolding call knows
get_by_idempotency_key key = do
  call
  guard (knows ("key" ∷ "response" ∷ [])) external
  w ← get_world
  pure (
      scanned (
        find_where (λ row. is_some (find_where (λ i. answers key i row) w.db.idempotency))
          w.db.operations))
