-- ===== src/UseCases/Upload/Outcome.antt =====
-- file.go: what an upload has made of its operation when it returns, and when it fails.
use update_service.Base.{
  subst, find_key, find_key-key, ℕ, suc, ◌≡◌, refl, String, some, List, arith, length,
}
use update_service.Domain.Operation.{queued, Operation}
use update_service.Effect.{Env, World}
use update_service.Effect.Tables.{OperationRow}
use update_service.Effect.Post.{Post, Post-mono}
use update_service.Repositories.Operations.{null_if_empty, row_to_operation, updated_row}
use update_service.Repositories.Operations.Locking.{own_id, next_row, row_of, rows_after}
use update_service.Transfer.Bytes.{bytes_at}
use update_service.UseCases.Upload.{
  FileOperationInput, FileOperationOutput, uploaded, input_path, execute,
}
use update_service.UseCases.Upload.Staged.{written, IsAccepted, Refused, upload-rows}

-- The operation of a row is QUEUED, with the size and the digest of the body, at the next version.
abbrev pub IsQueued : (List ℕ → String) → FileOperationInput → OperationRow → OperationRow → Type 0
IsQueued sha256 input row new =
    (new.id ≡ row.id)
    × (new.status ≡ queued)
    × (new.input_file_size ≡ some (length input.body))
    × (new.input_file_sha256 ≡ null_if_empty (sha256 input.body))
    × (new.version ≡ suc row.version)

module _ (staging_dir : String) (max_file_size : ℕ) (base_url : String) (input : FileOperationInput)
    (row : OperationRow) (e : Env) (w : World) where
  -- The checks have passed, the staging file is the body, and the row of the id is queued.
  abbrev pub Uploaded : FileOperationOutput → World → Type 0
  Uploaded out w' =
      IsAccepted staging_dir max_file_size base_url input row e w
      × (bytes_at (input_path staging_dir max_file_size base_url input.operation_id) w'.files
          ≡ some input.body)
      × ((new : OperationRow) × ((row_of input.operation_id w' ≡ some new)
            × IsQueued e.sha256 input row new))

  abbrev queued_op : FileOperationOutput → Operation
  queued_op out = written staging_dir max_file_size base_url input row e w input.body out.updated_at

  new_row :
      (out : FileOperationOutput)
      → row_of row.id w ≡ some row
      → find_key OperationRow.id row.id (rows_after (queued_op out) w.db.operations)
        ≡ some (updated_row (queued_op out) row)
  unfolding uploaded row_to_operation
  new_row out found = next_row (queued_op out) row w.db.operations found (ground arith)

  new_row-IsQueued :
      (out : FileOperationOutput) → IsQueued e.sha256 input row (updated_row (queued_op out) row)
  unfolding uploaded row_to_operation updated_row
  new_row-IsQueued out = (refl, refl, refl, refl, refl)

-- An upload that returns has found a CREATED operation, a body within the limit and a digest that
-- fits, if there is one; the staging file is the body, and the operation is QUEUED with the size and
-- the digest of the body. One that fails has changed no operation, or has stored that and failed
-- behind it.
pub upload-outcome :
    (staging_dir : String) (max_file_size : ℕ) (base_url : String) (input : FileOperationInput)
    (row : OperationRow) (e : Env) (w : World)
    → row_of input.operation_id w ≡ some row
    → Post
        (execute staging_dir max_file_size base_url input e w)
        (Uploaded staging_dir max_file_size base_url input row e w)
        (Refused staging_dir max_file_size base_url input row e w)
upload-outcome staging_dir max_file_size base_url input row e w found =
    let own = own_id input.operation_id row w.db.operations found in
    let same : row.id ≡ input.operation_id =
      find_key-key OperationRow.id input.operation_id w.db.operations row found in
    Post-mono (execute staging_dir max_file_size base_url input e w)
      (λ out w' h.
        let new =
          updated_row (queued_op staging_dir max_file_size base_url input row e w out) row in
        (
          h.0,
          h.1.0.0,
          (
            new,
            (
              subst (λ k. row_of k w' ≡ some new) same
                  (rw h.1.0.1 (new_row staging_dir max_file_size base_url input row e w out own)),
              new_row-IsQueued staging_dir max_file_size base_url input row e w out,
            ),
          ),
        ))
      (λ x w' h. h) (upload-rows staging_dir max_file_size base_url input row e w found)
