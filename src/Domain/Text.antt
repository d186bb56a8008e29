-- ===== src/Domain/Text.antt =====
-- internal/domain/operation/operation.go: the texts of the statuses and the stages.
use update_service.Base.{String, ◌≡◌, ◌≢◌, refl, str_eq, if◌then◌else◌}
use update_service.Domain.Operation.{
  OperationStatus, created, queued, dispatched, transferring, transferred, processing, completed,
  failed, timeout, cancelled, other, OperationStage, waiting_for_upload, stage_queued, scheduling,
  waiting_for_ack, stage_transferring, stage_transferred, verifying, stage_processing,
  stage_completed, stage_failed, stage_timeout, stage_cancelled, other_stage,
}

-- The constants' texts.
unfoldable pub status_text : OperationStatus → String
status_text created = "CREATED"
status_text queued = "QUEUED"
status_text dispatched = "DISPATCHED"
status_text transferring = "TRANSFERRING"
status_text transferred = "TRANSFERRED"
status_text processing = "PROCESSING"
status_text completed = "COMPLETED"
status_text failed = "FAILED"
status_text timeout = "TIMEOUT"
status_text cancelled = "CANCELLED"
status_text (other s) = s

unfoldable pub stage_text : OperationStage → String
stage_text waiting_for_upload = "WAITING_FOR_UPLOAD"
stage_text stage_queued = "QUEUED"
stage_text scheduling = "SCHEDULING"
stage_text waiting_for_ack = "WAITING_FOR_ACK"
stage_text stage_transferring = "TRANSFERRING"
stage_text stage_transferred = "TRANSFERRED"
stage_text verifying = "VERIFYING"
stage_text stage_processing = "PROCESSING"
stage_text stage_completed = "COMPLETED"
stage_text stage_failed = "FAILED"
stage_text stage_timeout = "TIMEOUT"
stage_text stage_cancelled = "CANCELLED"
stage_text (other_stage s) = s

unfoldable pub status_of : String → OperationStatus
status_of s =
    if str_eq s "CREATED"
    then created
    else if str_eq s "QUEUED"
    then queued
    else if str_eq s "DISPATCHED"
    then dispatched
    else if str_eq s "TRANSFERRING"
    then transferring
    else if str_eq s "TRANSFERRED"
    then transferred
    else if str_eq s "PROCESSING"
    then processing
    else if str_eq s "COMPLETED"
    then completed
    else if str_eq s "FAILED"
    then failed
    else if str_eq s "TIMEOUT"
    then timeout
    else if str_eq s "CANCELLED"
    then cancelled
    else other s

unfoldable pub stage_of : String → OperationStage
stage_of s =
    if str_eq s "WAITING_FOR_UPLOAD"
    then waiting_for_upload
    else if str_eq s "QUEUED"
    then stage_queued
    else if str_eq s "SCHEDULING"
    then scheduling
    else if str_eq s "WAITING_FOR_ACK"
    then waiting_for_ack
    else if str_eq s "TRANSFERRING"
    then stage_transferring
    else if str_eq s "TRANSFERRED"
    then stage_transferred
    else if str_eq s "VERIFYING"
    then verifying
    else if str_eq s "PROCESSING"
    then stage_processing
    else if str_eq s "COMPLETED"
    then stage_completed
    else if str_eq s "FAILED"
    then stage_failed
    else if str_eq s "TIMEOUT"
    then stage_timeout
    else if str_eq s "CANCELLED"
    then stage_cancelled
    else other_stage s

-- The statuses' texts are read back.
pub status_of-status_text :
    (s : OperationStatus) → ((t : String) → s ≢ other t) → status_of (status_text s) ≡ s
unfolding status_of status_text
status_of-status_text (other t) h = absurd (h t refl)
status_of-status_text created h = refl
status_of-status_text _ h = refl
