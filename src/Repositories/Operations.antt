-- ===== src/Repositories/Operations.antt =====
-- internal/infrastructure/mariadb/repositories/operation_repository.go, and `rowToOperation` of
-- mariadb.go. Versions and counts stay below the range of the column type INT.
pub mod Rows
pub mod Locking
pub mod Listing
use update_service.Base.{
  ℕ, suc, ◌+◌, ◌<◌, String, Bool, true, false, ◌&&◌, ◌||◌, Option, none, some, List, [], ◌∷◌, ◌==◌,
  ltb, is_some, if◌then◌else◌, str_eq, find_where, find_key, count_where, update_where,
}
use update_service.Domain.Json.{Fields}
use update_service.Domain.Operation.{
  OperationStatus, created, queued, dispatched, transferring, transferred, processing, completed,
  failed, timeout, cancelled, OperationStage, waiting_for_upload, stage_queued, waiting_for_ack,
  stage_transferring, verifying, stage_processing, stage_completed, stage_failed, stage_timeout,
  stage_cancelled, OperationError, InputFile, Operation, same_status,
}
use update_service.Effect.{
  Error, external, row_not_found, World, M, ◌>>=◌, ◌>>◌, pure, throw, guard, get_world, modify_db,
  call, now, in_tx,
}
use update_service.Effect.Tables.{Db, OperationRow}

-- `sql.NullString{String: s, Valid: true}` if the text is not empty, and NULL if it is.
abbrev pub null_if_empty : String → Option String
null_if_empty s = if str_eq s "" then none else some s

-- What `sql.NullInt64` and `sql.NullString` give for NULL.
abbrev pub int64 : Option ℕ → ℕ
int64 none = 0
int64 (some n) = n

abbrev pub text : Option String → String
text none = ""
text (some s) = s

abbrev pub created_file_size : Option InputFile → Option ℕ
created_file_size none = none
created_file_size (some f) = if ltb 0 f.size_bytes then some f.size_bytes else none

abbrev pub file_size : Option InputFile → Option ℕ
file_size none = none
file_size (some f) = some f.size_bytes

abbrev pub file_sha256 : Option InputFile → Option String
file_sha256 none = none
file_sha256 (some f) = null_if_empty f.sha256

abbrev pub file_name : Option InputFile → Option String
file_name none = none
file_name (some f) = null_if_empty f.file_name

abbrev pub error_code : Option OperationError → Option String
error_code none = none
error_code (some e) = null_if_empty e.code

abbrev pub error_message : Option OperationError → Option String
error_message none = none
error_message (some e) = null_if_empty e.message

-- The JSON text of the details, read back by `json.Unmarshal` as it was written.
abbrev pub error_details : Option OperationError → Option Fields
error_details none = none
error_details (some e) = e.details

-- The row that `Create` inserts: no cancellation and no error.
unfoldable pub created_row : Operation → OperationRow
created_row op = record {
  id = op.id;
  status = op.status;
  stage = op.stage;
  processor = op.processor;
  retry_count = op.retry_count;
  max_attempts = op.max_attempts;
  client_reference = op.client_reference;
  created_at = op.created_at;
  updated_at = op.updated_at;
  deadline = op.deadline;
  input_file_size = created_file_size op.input_file;
  input_file_sha256 = file_sha256 op.input_file;
  input_file_name = file_name op.input_file;
  current_job_id = op.current_job_id;
  current_attempt_id = op.current_attempt_id;
  current_transfer_id = op.current_transfer_id;
  cancel_requested_at = none;
  error_code = none;
  error_message = none;
  error_details = none;
  version = op.version;
}

-- `Create`: the primary key refuses an id that is there already.
unfoldable pub create : Operation → M (Unit {0})
unfolding in_tx created_row call
create op = in_tx (do
  call
  w ← get_world
  guard (if is_some (find_key OperationRow.id op.id w.db.operations) then false else true) external
  modify_db (λ db. record db { operations = created_row op ∷ db.operations }))

-- The columns that `Update` sets.
unfoldable pub updated_row : Operation → OperationRow → OperationRow
updated_row op row = record row {
  status = op.status;
  stage = op.stage;
  processor = op.processor;
  retry_count = op.retry_count;
  updated_at = op.updated_at;
  current_job_id = op.current_job_id;
  current_attempt_id = op.current_attempt_id;
  current_transfer_id = op.current_transfer_id;
  cancel_requested_at = op.cancel_requested_at;
  error_code = error_code op.error;
  error_message = error_message op.error;
  error_details = error_details op.error;
  input_file_size = file_size op.input_file;
  input_file_sha256 = file_sha256 op.input_file;
  input_file_name = file_name op.input_file;
  version = op.version;
}

-- `WHERE id = ? AND version = ?`, given `op.Version-1`.
abbrev pub is_previous : Operation → OperationRow → Bool
is_previous op row = str_eq row.id op.id && (row.version + 1 == op.version)

-- `Update`: an update that affects no row returns nil all the same.
unfoldable pub update : Operation → M (Unit {0})
unfolding call
update op = do
  call
  modify_db (λ db. record db {
    operations = update_where (is_previous op) (updated_row op) db.operations;
  })
  call

abbrev pub file_of : Option ℕ → Option String → Option String → Option InputFile
file_of size sha256 name =
    if is_some size || is_some sha256
    then some (record { size_bytes = int64 size; sha256 = text sha256; file_name = text name })
    else none

abbrev pub error_of : Option String → Option String → Option Fields → Option OperationError
error_of code message details =
    if is_some code || is_some message
    then some (record { code = text code; message = text message; details = details })
    else none

-- `rowToOperation` and `rowToOperationFromRows`, of a row that is there.
unfoldable pub row_to_operation : OperationRow → Operation
row_to_operation row = record {
  id = row.id;
  status = row.status;
  stage = row.stage;
  processor = row.processor;
  retry_count = row.retry_count;
  max_attempts = row.max_attempts;
  client_reference = row.client_reference;
  created_at = row.created_at;
  updated_at = row.updated_at;
  deadline = row.deadline;
  input_file = file_of row.input_file_size row.input_file_sha256 row.input_file_name;
  current_job_id = row.current_job_id;
  current_attempt_id = row.current_attempt_id;
  current_transfer_id = row.current_transfer_id;
  cancel_requested_at = row.cancel_requested_at;
  error = error_of row.error_code row.error_message row.error_details;
  version = row.version;
}

abbrev pub scanned : Option OperationRow → Option Operation
scanned none = none
scanned (some row) = some (row_to_operation row)

-- `GetByID`: `none` is the nil pointer for a missing row.
unfoldable pub get_by_id : String → M (Option Operation)
unfolding call
get_by_id id = do call; w ← get_world; pure (scanned (find_key OperationRow.id id w.db.operations))

-- `stageForStatus`
unfoldable pub stage_for_status : OperationStatus → OperationStage
stage_for_status created = waiting_for_upload
stage_for_status queued = stage_queued
stage_for_status dispatched = waiting_for_ack
stage_for_status transferring = stage_transferring
stage_for_status transferred = verifying
stage_for_status processing = stage_processing
stage_for_status completed = stage_completed
stage_for_status failed = stage_failed
stage_for_status timeout = stage_timeout
stage_for_status cancelled = stage_cancelled
stage_for_status _ = waiting_for_upload

-- `WHERE id = ? AND status = ? AND version = ?`
abbrev pub is_current : String → OperationStatus → ℕ → OperationRow → Bool
is_current id from version row =
    str_eq row.id id && (same_status row.status from && (row.version == version))

abbrev pub moved : OperationStatus → ℕ → OperationRow → OperationRow
moved to at row = record row {
  status = to;
  stage = stage_for_status to;
  updated_at = at;
  version = suc row.version;
}

-- `Transition`: a compare-and-swap in a transaction; `ports.ErrOperationNotFound` if it misses.
unfoldable pub transition : String → OperationStatus → OperationStatus → ℕ → M (Option Operation)
unfolding in_tx call now stage_for_status
transition id from to version = in_tx (do
  call
  at ← now
  w ← get_world
  let rows = count_where (is_current id from version) w.db.operations
  modify_db (λ db. record db {
    operations = update_where (is_current id from version) (moved to at) db.operations;
  })
  call
  guard (ltb 0 rows) row_not_found
  call
  w' ← get_world
  pure (scanned (find_key OperationRow.id id w'.db.operations)))
