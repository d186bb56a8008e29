-- ===== src/Domain/Job.antt =====
-- internal/domain/job/job.go: jobs, their attempts, and the transfer of an input file in chunks.
use update_service.Base.{ℕ, String, Option}
use update_service.Domain.Json.{Fields}

pub data JobStatus : Type 0 where
  job_created job_assigned job_dispatched job_acknowledged job_executing job_succeeded job_failed
        job_timeout job_cancelled :
      JobStatus

pub record JobError : Type 0 where
  pub code : String
  pub message : String
  pub details : Option Fields

pub record Job : Type 0 where
  pub id : String
  pub operation_id : String
  pub worker_node_id : String
  pub status : JobStatus
  pub processor : String
  pub requirements : Option Fields
  pub assigned_at : ℕ
  pub dispatched_at : Option ℕ
  pub acknowledged_at : Option ℕ
  pub completed_at : Option ℕ
  pub error : Option JobError
  pub version : ℕ

pub data AttemptStatus : Type 0 where
  pending command_sent attempt_acknowledged attempt_transferring attempt_transferred
        attempt_processing attempt_succeeded attempt_failed attempt_timeout attempt_cancelled :
      AttemptStatus

pub record JobAttempt : Type 0 where
  pub id : String
  pub job_id : String
  pub operation_id : String
  pub node_id : String
  pub attempt_number : ℕ
  pub status : AttemptStatus
  pub command_id : String
  pub claim_token : String
  pub lease_until : ℕ
  pub processing_id : Option String
  pub error : Option JobError
  pub started_at : Option ℕ
  pub completed_at : Option ℕ
  pub version : ℕ

pub data TransferStatus : Type 0 where
  transfer_created transfer_accepted transfer_transferring transfer_verifying transfer_completed
        transfer_failed transfer_timeout transfer_cancelled :
      TransferStatus

pub record FileTransfer : Type 0 where
  pub id : String
  pub attempt_id : String
  pub operation_id : String
  pub file_id : String
  pub source_node_id : String
  pub destination_node_id : String
  pub file_size_bytes : ℕ
  pub chunk_size_bytes : ℕ
  pub total_chunks : ℕ
  pub file_checksum : String
  pub checksum_algorithm : String
  pub status : TransferStatus
  pub staging_path : String
  pub staging_reservation_id : Option String
  pub deadline_at : ℕ
  pub accepted_at : Option ℕ
  pub completed_at : Option ℕ
  pub received_chunks : ℕ
  pub error : Option JobError
  pub version : ℕ

pub record FileChunk : Type 0 where
  pub id : String
  pub transfer_id : String
  pub chunk_index : ℕ
  pub chunk_offset : ℕ
  pub chunk_size : ℕ
  pub checksum : String
  pub publish_state : String
  pub ack_state : String
  pub received_at : Option ℕ
  pub acknowledged_at : Option ℕ
  pub version : ℕ
