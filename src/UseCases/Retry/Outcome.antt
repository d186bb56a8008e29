-- ===== src/UseCases/Retry/Outcome.antt =====
-- retry.go: what a retry has made of its operation when it returns, and when it fails.
use update_service.Base.{
  find_key-key, ℕ, suc, ◌≡◌, subst, refl, String, none, some, List, arith, find_key,
}
use update_service.Domain.Operation.{queued, Operation}
use update_service.Effect.{Env, World}
use update_service.Effect.Tables.{OperationRow}
use update_service.Effect.Post.{Post, Post-mono}
use update_service.Repositories.Operations.{row_to_operation, updated_row, text}
use update_service.Repositories.Operations.Locking.{own_id, row_of, rows_after, next_row}
use update_service.UseCases.Retry.{
  RetryOperationInput, RetryOperationOutput, requeued, assigned, execute,
}
use update_service.UseCases.Retry.Budget.{after_both, IsOpen, Refused, execute-rows}

-- What a retry has made of a row.
abbrev pub IsRequeued : OperationRow → RetryOperationOutput → OperationRow → Type 0
IsRequeued row out new =
    (new.id ≡ row.id)
    × (new.status ≡ queued)
    × (new.retry_count ≡ suc row.retry_count)
    × (new.current_job_id ≡ some (text out.current_job_id))
    × (new.current_attempt_id ≡ some (text out.current_attempt_id))
    × (new.error_code ≡ none)
    × (new.version ≡ suc (suc row.version))

module _ (row : OperationRow) (rows : List OperationRow) (at : ℕ) (out : RetryOperationOutput)
    (found : find_key OperationRow.id row.id rows ≡ some row) where
  abbrev first_op : Operation
  first_op = requeued (row_to_operation row) at

  abbrev second_op : Operation
  second_op = assigned first_op (text out.current_job_id) (text out.current_attempt_id)

  abbrev new_row : OperationRow
  new_row = updated_row second_op (updated_row first_op row)

  first_row :
      find_key OperationRow.id second_op.id (rows_after first_op rows)
      ≡ some (updated_row first_op row)
  unfolding assigned requeued row_to_operation
  first_row = next_row first_op row rows found (ground arith)

  second_row :
      find_key OperationRow.id row.id
        (after_both first_op rows (text out.current_job_id) (text out.current_attempt_id))
      ≡ some (updated_row second_op (updated_row first_op row))
  unfolding assigned requeued row_to_operation updated_row
  second_row =
      next_row second_op (updated_row first_op row) (rows_after first_op rows) first_row
        (ground arith)

  second_row-IsRequeued : IsRequeued row out (updated_row second_op (updated_row first_op row))
  unfolding assigned requeued row_to_operation updated_row
  second_row-IsRequeued = (refl, refl, refl, refl, refl, refl, refl)

module _ (base_url : String) (input : RetryOperationInput) (row : OperationRow) (w : World) where
  -- The checks have passed, and the row of the id is queued again, with one more attempt used and
  -- the job and the attempt that the output names.
  abbrev pub Requeued : RetryOperationOutput → World → Type 0
  Requeued out w' =
      IsOpen row
      × ((new : OperationRow) × ((row_of input.operation_id w' ≡ some new)
            × IsRequeued row out new))
      × (out.retry_count ≡ suc row.retry_count)

-- A retry that returns has found a row that has failed or timed out with attempts left, and has
-- written it twice: queued again with one more attempt used, then with the new job and attempt. One
-- that fails has changed no operation, or it has got past the checks and only some of that is written:
-- the attempt is used, with or without the job.
pub execute-outcome :
    (base_url : String) (input : RetryOperationInput) (row : OperationRow) (e : Env) (w : World)
    → row_of input.operation_id w ≡ some row
    → Post
        (execute base_url input e w)
        (Requeued base_url input row w)
        (Refused base_url input row w.db.operations (e.clock (suc w.calls)))
unfolding requeued row_to_operation
execute-outcome base_url input row e w found =
    let at = e.clock (suc w.calls) in
    let own = own_id input.operation_id row w.db.operations found in
    let same : row.id ≡ input.operation_id =
      find_key-key OperationRow.id input.operation_id w.db.operations row found in
    Post-mono (execute base_url input e w)
      (λ out w' h.
        let new = new_row row w.db.operations at out own in
        (
          h.0,
          (
            new,
            (
              subst (λ k. row_of k w' ≡ some new) same
                  (rw h.1.0 (second_row row w.db.operations at out own)),
              second_row-IsRequeued row w.db.operations at out own,
            ),
          ),
          h.1.1,
        ))
      (λ x w' h. h) (execute-rows base_url input row e w found)
