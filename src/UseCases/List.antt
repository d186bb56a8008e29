-- ===== src/UseCases/List.antt =====
-- internal/application/operations/list.go: the listing of the operations.
pub mod Paging
use update_service.Base.{ℕ, zero, suc, String, Bool, Option, none, List}
use update_service.Domain.Operation.{OperationStatus, Operation}
use update_service.Effect.{M, ◌>>=◌, pure}
use update_service.Repositories.Operations.Listing.{OperationFilter, list, page_size}

pub record ListOperationInput : Type 0 where
  pub status : Option OperationStatus
  pub processor : Option String
  pub cursor : Option String
  pub limit : ℕ

pub record ListOperationOutput : Type 0 where
  pub operations : List Operation
  pub next_cursor : Option String

-- The filter of a call, with 50 for a limit that is not positive.
unfoldable pub filter_of : ListOperationInput → OperationFilter
filter_of input = record {
  status = input.status;
  processor = input.processor;
  cursor = input.cursor;
  limit = page_size input.limit;
}

-- `Execute`: there is no next cursor.
unfoldable pub execute : (String → String → Bool) → ListOperationInput → M ListOperationOutput
unfolding list filter_of
execute le input = do
  ops ← list le (filter_of input)
  pure (record { operations = ops; next_cursor = none })
