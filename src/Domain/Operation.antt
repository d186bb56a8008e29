-- ===== src/Domain/Operation.antt =====
-- internal/domain/operation/operation.go: an operation, its status and its stage.
use update_service.Base.{ℕ, String, Bool, true, false, Option, str_eq}
use update_service.Domain.Json.{Fields}

-- `OperationStatus` is a Go string: its ten constants, and any other text. So is the stage.
pub data OperationStatus : Type 0 where
  created queued dispatched transferring transferred processing completed failed timeout cancelled :
      OperationStatus
  other : String → OperationStatus

pub data OperationStage : Type 0 where
  waiting_for_upload stage_queued scheduling waiting_for_ack stage_transferring stage_transferred
        verifying stage_processing stage_completed stage_failed stage_timeout stage_cancelled :
      OperationStage
  other_stage : String → OperationStage

pub record OperationError : Type 0 where
  pub code : String
  pub message : String
  -- `none` is a nil map.
  pub details : Option Fields

pub record InputFile : Type 0 where
  pub size_bytes : ℕ
  pub sha256 : String
  pub file_name : String

pub record UploadTarget : Type 0 where
  pub method : String
  pub url : String
  pub headers : Fields
  pub expires : ℕ
  pub max_bytes : ℕ

-- A time is a number of nanoseconds; a pointer that may be nil is an `Option`.
pub record Operation : Type 0 where
  pub id : String
  pub status : OperationStatus
  pub stage : OperationStage
  pub processor : String
  pub retry_count : ℕ
  pub max_attempts : ℕ
  pub client_reference : String
  pub created_at : ℕ
  pub updated_at : ℕ
  pub deadline : Option ℕ
  pub input_file : Option InputFile
  pub current_job_id : Option String
  pub current_attempt_id : Option String
  pub current_transfer_id : Option String
  pub cancel_requested_at : Option ℕ
  pub error : Option OperationError
  pub version : ℕ

-- Go's `==` on statuses.
abbrev pub same_status : OperationStatus → OperationStatus → Bool
same_status created created = true
same_status queued queued = true
same_status dispatched dispatched = true
same_status transferring transferring = true
same_status transferred transferred = true
same_status processing processing = true
same_status completed completed = true
same_status failed failed = true
same_status timeout timeout = true
same_status cancelled cancelled = true
same_status (other s) (other t) = str_eq s t
same_status _ _ = false
