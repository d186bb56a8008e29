-- ===== src/Repositories/Operations/Rows.antt =====
-- operation_repository.go: what a row keeps of an operation.
use update_service.Base.{
  ◌<◌, ◌≡◌, false, ◌⊎◌, refl, String, Option, none, some, arith, eq_iff, str_eq,
}
use update_service.Domain.Operation.{OperationError, InputFile, Operation}
use update_service.Effect.Tables.{OperationRow}
use update_service.Repositories.Operations.{
  created_row, updated_row, row_to_operation, file_of, error_of, created_file_size, file_size,
  file_sha256, file_name, error_code, error_message, error_details, text, null_if_empty,
}

-- The columns that `Update` does not write are those of the operation.
pub record SameIdentity (op : Operation) (row : OperationRow) : Type 0 where
  pub id : row.id ≡ op.id
  pub max_attempts : row.max_attempts ≡ op.max_attempts
  pub client_reference : row.client_reference ≡ op.client_reference
  pub created_at : row.created_at ≡ op.created_at
  pub deadline : row.deadline ≡ op.deadline

-- An error has a code or a message.
abbrev pub HasText : Option OperationError → Type 0
HasText none = Unit
HasText (some e) = (str_eq e.code "" ≡ false) ⊎ (str_eq e.message "" ≡ false)

text-null_if_empty : (s : String) → text (null_if_empty s) ≡ s
text-null_if_empty s = ground (arith, eq_iff s "")

file_of-columns : (o : Option InputFile) → file_of (file_size o) (file_sha256 o) (file_name o) ≡ o
file_of-columns none = refl
file_of-columns (some f) =
    ground (arith, text-null_if_empty f.sha256, text-null_if_empty f.file_name)

error_of-columns :
    (o : Option OperationError)
    → HasText o
    → error_of (error_code o) (error_message o) (error_details o) ≡ o
error_of-columns none h = refl
error_of-columns (some x) h = ground (arith, eq_iff x.code "", eq_iff x.message "")

pub row_to_operation-updated_row :
    (op : Operation) (row : OperationRow)
    → SameIdentity op row
    → HasText op.error
    → row_to_operation (updated_row op row) ≡ op
unfolding row_to_operation updated_row
row_to_operation-updated_row op row same h =
    ground (arith, file_of-columns op.input_file, error_of-columns op.error h)

-- A file that has a size or a digest is read back from the columns of `Create`; an empty one with no digest is lost.
abbrev pub HasFile : Option InputFile → Type 0
HasFile none = Unit
HasFile (some f) = (0 < f.size_bytes) ⊎ (str_eq f.sha256 "" ≡ false)

created_file :
    (o : Option InputFile)
    → HasFile o
    → file_of (created_file_size o) (file_sha256 o) (file_name o) ≡ o
created_file none h = refl
created_file (some f) h = ground (arith, text-null_if_empty f.file_name, eq_iff f.sha256 "")

-- What `Create` inserts is read back as the operation, if it has no cancellation, no error and a
-- file, if any, with a size or a digest.
pub row_to_operation-created_row :
    (op : Operation)
    → op.cancel_requested_at ≡ none
    → op.error ≡ none
    → HasFile op.input_file
    → row_to_operation (created_row op) ≡ op
unfolding row_to_operation created_row
row_to_operation-created_row op c x h = ground (arith, created_file op.input_file h)
