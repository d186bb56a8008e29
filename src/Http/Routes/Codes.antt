-- ===== src/Http/Routes/Codes.antt =====
-- handler.go: the codes of a cancellation and of a read of a result, and what they say of the tables.
use update_service.Base.{
  ◌≡◌, ◌⊎◌, ℕ, ◌+◌, refl, inl, inr, Bool-cases, String, false, Option, none, some, str_eq,
  if◌then◌else◌,
}
use update_service.Domain.Operation.{completed, same_status}
use update_service.Effect.{
  Error, already_terminal, Env, World, Outcome, ok, err, panic, IsReliable, Returns, ◌>>=◌, counted,
}
use update_service.Effect.Tables.{OperationRow, OperationResult}
use update_service.Effect.Post.{Post}
use update_service.Repositories.Operations.{row_to_operation, updated_row}
use update_service.Repositories.Operations.Locking.{row_of}
use update_service.UseCases.Cancel
use update_service.UseCases.Cancel.{CancelOperationOutput, cancel_requested}
use update_service.UseCases.Cancel.Intent.{Branch, execute-branches, is_terminal}
use update_service.UseCases.Query.Ready.{IsReady, result_of}
use update_service.Http.{Request, Response, catch}
use update_service.Http.Commands.{cancel_operations, cancel_answer, cancel_response}

module _ (error_text : Error → String) (base_url staging_dir : String) (max_file_size : ℕ)
    (req : Request) (e : Env) (w : World) where
  -- What a code says of the operation and its result.
  abbrev pub ResultMeans : ℕ → Type 0
  ResultMeans code =
      ((code ≡ 200) × ((r : OperationResult) × IsReady req.id w r))
      ⊎ (((code ≡ 404) × (row_of req.id w ≡ none))
          ⊎ (((code ≡ 409)
                × (((row : OperationRow) × ((row_of req.id w ≡ some row)
                        × (same_status row.status completed ≡ false)))
                    ⊎ (result_of req.id w ≡ none)))
              ⊎ (code ≡ 500)))

  -- What a cancellation does, by the row that the id has.
  abbrev pub CancelMeans : Option OperationRow → Response → World → Type 0
  CancelMeans none r w' = (r.code ≡ 404) × (w'.db ≡ w.db)
  CancelMeans (some row) r w' =
      if is_terminal row
      then ((r.code ≡ 409) × (w'.db ≡ w.db))
      else (r.code ≡ 202)
        × ((at : ℕ) × (row_of row.id w'
              ≡ some (updated_row (cancel_requested (row_to_operation row) at) row)))

  abbrev cancelled : Outcome CancelOperationOutput → Outcome Response
  cancelled o =
      (catch (λ _ _. o) >>= cancel_answer error_text base_url staging_dir max_file_size) e w

  -- While the outside works, a cancellation of an unknown operation is answered with 404, of one
  -- that has ended with 409, and neither changes a table; of any other one with 202, and its row is
  -- the old one with the time of the wish and the next version.
  pub cancel-codes :
      (reason : String)
      → IsReliable e
      → str_eq req.id "" ≡ false
      → str_eq (req.header "Idempotency-Key") "" ≡ false
      → req.reason_request ≡ some reason
      → Returns
          (cancel_operations error_text base_url staging_dir max_file_size req e w)
          (CancelMeans (row_of req.id w))
  unfolding cancel_operations catch cancel_response
  cancel-codes reason reliable named keyed bound =
      rw (named, keyed, bound)
        (go (row_of req.id w) (
          execute-branches base_url (record { operation_id = req.id; reason = reason }) e w
            reliable))
    where
      input : Cancel.CancelOperationInput
      input = record { operation_id = req.id; reason = reason }

      returned :
          (row : OperationRow) (o : Outcome CancelOperationOutput)
          → is_terminal row ≡ false
          → Returns o (λ out w'.
            (row_of row.id w'
              ≡ some (
                  updated_row
                    (cancel_requested (row_to_operation row) out.cancel_requested_at)
                    row))
            × (out.status ≡ row.status)
            × (out.version ≡ row.version + 1))
          → Returns (cancelled o) (CancelMeans (some row))
      returned row (ok out w') t h = rw t (refl, (out.cancel_requested_at, h.0))
      returned row (err x w') t h = absurd h
      returned row (panic w') t h = absurd h

      go :
          (o : Option OperationRow)
          → Branch base_url input e w o
          → Returns (cancelled (Cancel.execute base_url input e w)) (CancelMeans o)
      go none h = rw h (refl, refl)
      go (some row) h = elim (Bool-cases (is_terminal row)) [
        | inl t ↦
            let q : Cancel.execute base_url input e w ≡ err already_terminal (counted w) =
              rw t at h in
            rw (q, t) (refl, refl)
        | inr t ↦ returned row (Cancel.execute base_url input e w) t (rw t at h)
      ]
