-- ===== src/Effect/Tables.antt =====
-- The tables of internal/infrastructure/mariadb/migrations. A row of `operations` has NULLs where
-- the record has nil pointers; the other rows are the records as they are stored.
use update_service.Base.{ℕ, String, Option, List, []}
use update_service.Domain.Json.{Json, Fields}
use update_service.Domain.Operation.{OperationStatus, OperationStage}
use update_service.Domain.Job.{Job, JobAttempt, FileTransfer, FileChunk}
use update_service.Domain.Node.{Node, Heartbeat}
use update_service.Domain.Event.{OperationEvent}

-- A row of the table `operations`.
pub record OperationRow : Type 0 where
  pub id : String
  pub status : OperationStatus
  pub stage : OperationStage
  pub processor : String
  pub retry_count : ℕ
  pub max_attempts : ℕ
  pub client_reference : String
  pub created_at : ℕ
  pub updated_at : ℕ
  pub deadline : Option ℕ
  pub input_file_size : Option ℕ
  pub input_file_sha256 : Option String
  pub input_file_name : Option String
  pub current_job_id : Option String
  pub current_attempt_id : Option String
  pub current_transfer_id : Option String
  pub cancel_requested_at : Option ℕ
  pub error_code : Option String
  pub error_message : Option String
  pub error_details : Option Fields
  pub version : ℕ

-- A row of `idempotency_keys`; `response` is a JSON column.
pub record IdempotencyRow : Type 0 where
  pub key : String
  pub method : String
  pub path : String
  pub fingerprint : String
  pub response : Json
  pub expires_at : ℕ

-- internal/domain/result/result.go
pub record OperationResult : Type 0 where
  pub id : String
  pub operation_id : String
  pub processor : String
  pub schema_version : ℕ
  pub value : Fields
  pub produced_at : ℕ
  pub expires_at : Option ℕ
  pub size_bytes : ℕ
  pub checksum : String

pub record Db : Type 0 where
  pub operations : List OperationRow
  pub jobs : List Job
  pub attempts : List JobAttempt
  pub transfers : List FileTransfer
  pub chunks : List FileChunk
  pub idempotency : List IdempotencyRow
  pub results : List OperationResult
  -- The newest first.
  pub events : List OperationEvent
  pub nodes : List Node
  -- The newest first.
  pub heartbeats : List Heartbeat

abbrev pub empty : Db
empty = record {
  operations = [];
  jobs = [];
  attempts = [];
  transfers = [];
  chunks = [];
  idempotency = [];
  results = [];
  events = [];
  nodes = [];
  heartbeats = [];
}
