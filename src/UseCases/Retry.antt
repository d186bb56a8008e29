-- ===== src/UseCases/Retry.antt =====
-- internal/application/operations/retry.go
pub mod Budget
pub mod Outcome
use update_service.Base.{
  ℕ, suc, ◌+◌, ◌*◌, ◌^◌, String, Bool, ◌&&◌, not, Option, none, some, leb, if◌then◌else◌,
  hex_number, cat,
}
use update_service.Domain.Json.{str, num, end, field}
use update_service.Domain.Operation.{
  OperationStatus, Operation, queued, stage_queued, failed, timeout, same_status,
}
use update_service.Domain.Job.{Job, JobAttempt, job_created, pending}
use update_service.Domain.Event.{OperationEvent, operation_retry_scheduled}
use update_service.Effect.{
  Error, operation_not_found, invalid_state_for_retry, M, ◌>>=◌, ◌>>◌, pure, throw, now,
  ignore_error,
}
use update_service.Repositories.Operations
use update_service.Repositories.Jobs
use update_service.Repositories.Attempts
use update_service.Repositories.Events
use update_service.UseCases.Create.{status_url}

pub record RetryOperationInput : Type 0 where
  pub operation_id : String
  pub reason : String

pub record RetryOperationOutput : Type 0 where
  pub operation_id : String
  pub status : OperationStatus
  pub retry_count : ℕ
  pub max_attempts : ℕ
  pub current_job_id : Option String
  pub current_attempt_id : Option String
  pub status_url : String
  pub updated_at : ℕ
  pub version : ℕ

-- The operation as the first update writes it: queued again, with what the last run left cleared.
unfoldable pub requeued : Operation → ℕ → Operation
requeued op at = record op {
  retry_count = suc op.retry_count;
  status = queued;
  stage = stage_queued;
  updated_at = at;
  version = suc op.version;
  current_job_id = none;
  current_attempt_id = none;
  current_transfer_id = none;
  cancel_requested_at = none;
  error = none;
}

-- The operation as the second update writes it.
unfoldable pub assigned : Operation → String → String → Operation
assigned op job_id attempt_id = record op {
  current_job_id = some job_id;
  current_attempt_id = some attempt_id;
  version = suc op.version;
}

-- The new job has no worker yet.
unfoldable pub retry_job : Operation → String → ℕ → Job
retry_job op job_id at = record {
  id = job_id;
  operation_id = op.id;
  worker_node_id = "";
  status = job_created;
  processor = op.processor;
  requirements = none;
  assigned_at = at;
  dispatched_at = none;
  acknowledged_at = none;
  completed_at = none;
  error = none;
  version = 1;
}

-- Five minutes, in nanoseconds.
abbrev pub lease : ℕ
lease = 300 * 10 ^ 9

unfoldable pub retry_attempt : Operation → String → String → ℕ → ℕ → ℕ → JobAttempt
retry_attempt op job_id attempt_id command_time claim_time at = record {
  id = attempt_id;
  job_id = job_id;
  operation_id = op.id;
  node_id = "";
  attempt_number = op.retry_count;
  status = pending;
  command_id = cat "cmd-" (hex_number command_time);
  claim_token = cat "claim-" (hex_number claim_time);
  lease_until = at + lease;
  processing_id = none;
  error = none;
  started_at = none;
  completed_at = none;
  version = 1;
}

unfoldable pub retry_event : Operation → String → String → String → ℕ → ℕ → OperationEvent
retry_event op job_id attempt_id reason id_time at = record {
  id = cat "evt-" (hex_number id_time);
  operation_id = op.id;
  event_type = operation_retry_scheduled;
  job_id = none;
  attempt_id = none;
  transfer_id = none;
  payload = field "retry_count" (num op.retry_count) (
      field "new_job_id" (str job_id)
        (field "new_attempt_id" (str attempt_id) (field "reason" (str reason) end)));
  correlation_id = op.id;
  issued_at = at;
  actor_node_id = "self";
  version = op.version;
}

-- The part of `Execute` behind the two checks.
unfoldable pub retry_allowed : String → RetryOperationInput → Operation → M RetryOperationOutput
unfolding now ignore_error
retry_allowed base_url input loaded = do
  at ← now
  let op = requeued loaded at
  Operations.update op
  job_time ← now
  attempt_time ← now
  let job_id = cat "job-" (hex_number job_time)
  let attempt_id = cat "attempt-" (hex_number attempt_time)
  command_time ← now
  claim_time ← now
  Jobs.create (retry_job op job_id at)
  Attempts.create (retry_attempt op job_id attempt_id command_time claim_time at)
  let op' = assigned op job_id attempt_id
  Operations.update op'
  id_time ← now
  ignore_error (Events.append (retry_event op' job_id attempt_id input.reason id_time at))
  pure (record {
    operation_id = op'.id;
    status = op'.status;
    retry_count = op'.retry_count;
    max_attempts = op'.max_attempts;
    current_job_id = some job_id;
    current_attempt_id = some attempt_id;
    status_url = status_url base_url op'.id;
    updated_at = op'.updated_at;
    version = op'.version;
  })

unfoldable pub retry_loaded :
    String → RetryOperationInput → Option Operation → M RetryOperationOutput
retry_loaded base_url input none = throw operation_not_found
retry_loaded base_url input (some op) =
    if not (same_status op.status failed) && not (same_status op.status timeout)
    then throw invalid_state_for_retry
    else if leb op.max_attempts op.retry_count
    then throw invalid_state_for_retry
    else retry_allowed base_url input op

-- `RetryOperationUseCase.Execute`
unfoldable pub execute : String → RetryOperationInput → M RetryOperationOutput
unfolding retry_loaded
execute base_url input = do
  op ← Operations.get_by_id input.operation_id
  retry_loaded base_url input op
