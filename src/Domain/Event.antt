-- ===== src/Domain/Event.antt =====
-- internal/domain/event/event.go: the append-only events of an operation.
use update_service.Base.{ℕ, String, Option}
use update_service.Domain.Json.{Fields}

pub data EventType : Type 0 where
  operation_created operation_queued operation_dispatched operation_transferred operation_processing
        operation_completed operation_failed operation_timed_out operation_cancelled
        operation_retry_scheduled command_accepted transfer_accepted chunk_accepted
        transfer_verified transfer_failed processing_started processing_succeeded processing_failed
        cancel_accepted cancelled :
      EventType

-- The constants' texts.
unfoldable pub event_type_string : EventType → String
event_type_string operation_created = "OperationCreated"
event_type_string operation_queued = "OperationQueued"
event_type_string operation_dispatched = "OperationDispatched"
event_type_string operation_transferred = "OperationTransferred"
event_type_string operation_processing = "OperationProcessing"
event_type_string operation_completed = "OperationCompleted"
event_type_string operation_failed = "OperationFailed"
event_type_string operation_timed_out = "OperationTimedOut"
event_type_string operation_cancelled = "OperationCancelled"
event_type_string operation_retry_scheduled = "OperationRetryScheduled"
event_type_string command_accepted = "CommandAccepted"
event_type_string transfer_accepted = "TransferAccepted"
event_type_string chunk_accepted = "ChunkAccepted"
event_type_string transfer_verified = "TransferVerified"
event_type_string transfer_failed = "TransferFailed"
event_type_string processing_started = "ProcessingStarted"
event_type_string processing_succeeded = "ProcessingSucceeded"
event_type_string processing_failed = "ProcessingFailed"
event_type_string cancel_accepted = "CancelAccepted"
event_type_string cancelled = "Cancelled"

pub record OperationEvent : Type 0 where
  pub id : String
  pub operation_id : String
  pub event_type : EventType
  pub job_id : Option String
  pub attempt_id : Option String
  pub transfer_id : Option String
  pub payload : Fields
  pub correlation_id : String
  pub issued_at : ℕ
  pub actor_node_id : String
  pub version : ℕ
