-- ===== src/UseCases/Create.antt =====
-- internal/application/operations/create.go
pub mod Output
pub mod Insert
use update_service.Base.{
  ℕ, ◌+◌, ◌*◌, ◌^◌, ℤ, pos, negsuc, ltb, cat, String, Option, none, some, if◌then◌else◌, str_eq,
  hex_text,
}
use update_service.Domain.Json.{Json, num, str, Fields, end, field}
use update_service.Domain.Operation.{
  OperationStatus, created, OperationStage, waiting_for_upload, UploadTarget, Operation,
}
use update_service.Domain.Event.{OperationEvent, operation_created}
use update_service.Effect.{M, ◌>>=◌, ◌>>◌, pure, get_env, now, random_hex, attempt, ignore_error}
use update_service.Repositories.Operations
use update_service.Repositories.Idempotency
use update_service.Repositories.Events
use Output.{CreateOperationOutput, marshal_output, unmarshal_output}

pub record CreateOperationInput : Type 0 where
  pub processor : String
  pub deadline : Option ℕ
  -- `RetryPolicy.MaxAttempts`, if there is a policy.
  pub retry_policy : Option ℤ
  pub client_reference : String

-- `generateID`
unfoldable pub generate_id : String → M String
unfolding random_hex
generate_id prefix = do hex ← random_hex; pure (cat prefix (cat "-" hex))

-- An hour, in nanoseconds.
abbrev pub hour : ℕ
hour = 3600 * 10 ^ 9

-- Three, or what a policy asks for, if that is positive.
unfoldable pub max_attempts : Option ℤ → ℕ
max_attempts none = 3
max_attempts (some (pos n)) = if ltb 0 n then n else 3
max_attempts (some (negsuc n)) = 3

unfoldable pub new_operation : CreateOperationInput → String → ℕ → Operation
unfolding max_attempts
new_operation input id at = record {
  id = id;
  status = created;
  stage = waiting_for_upload;
  processor = input.processor;
  retry_count = 0;
  max_attempts = max_attempts input.retry_policy;
  client_reference = input.client_reference;
  created_at = at;
  updated_at = at;
  deadline = input.deadline;
  input_file = none;
  current_job_id = none;
  current_attempt_id = none;
  current_transfer_id = none;
  cancel_requested_at = none;
  error = none;
  version = 1;
}

-- `uc.baseURL + "/api/v1/operations/" + id`
abbrev pub status_url : String → String → String
status_url base_url id = cat base_url (cat "/api/v1/operations/" id)

unfoldable pub new_output : String → String → ℕ → CreateOperationOutput
new_output base_url id at = record {
  operation_id = id;
  status = created;
  stage = waiting_for_upload;
  upload_target = record {
    method = "PUT";
    url = cat (status_url base_url id) "/file";
    headers = field "Content-Type" (str "application/octet-stream") end;
    expires = at + hour;
    max_bytes = 2 ^ 30;
  };
  status_url = status_url base_url id;
  result_url = cat (status_url base_url id) "/result";
  created_at = at;
  version = 1;
}

unfoldable pub created_event : CreateOperationInput → String → String → ℕ → OperationEvent
unfolding max_attempts
created_event input id event_id at = record {
  id = event_id;
  operation_id = id;
  event_type = operation_created;
  job_id = none;
  attempt_id = none;
  transfer_id = none;
  payload =
      field "processor" (str input.processor)
        (field "max_attempts" (num (max_attempts input.retry_policy)) end);
  correlation_id = id;
  issued_at = at;
  actor_node_id = "self";
  version = 1;
}

-- The part of `Execute` behind the cache: `string(b)` is a text, so what `Store` is given to
-- marshal is a JSON string.
unfoldable pub create_fresh :
    String → CreateOperationInput → String → String → String → ℕ → M CreateOperationOutput
unfolding generate_id new_operation new_output created_event marshal_output
create_fresh base_url input idempotency_key method path at = do
  id ← generate_id "op"
  Operations.create (new_operation input id at)
  event_id ← generate_id "evt"
  ignore_error (Events.append (created_event input id event_id at))
  let out = new_output base_url id at
  env ← get_env
  ignore_error (
      Idempotency.store idempotency_key method path (hex_text id)
        (str (env.render (marshal_output out))) (at + hour))
  pure out

-- A cached response counts if its fingerprint is not empty and it can be read.
unfoldable pub replayed : Option (String × Json × ℕ) → Option CreateOperationOutput
unfolding unmarshal_output
replayed none = none
replayed (some (fingerprint, response, _)) =
    if str_eq fingerprint "" then none else unmarshal_output response

-- `CreateOperationUseCase.Execute`
unfoldable pub execute :
    String → CreateOperationInput → String → String → String → M CreateOperationOutput
unfolding create_fresh replayed now attempt
execute base_url input idempotency_key method path = do
  at ← now
  cached ← attempt (Idempotency.get idempotency_key method path)
  elim (replayed cached) [
    | none ↦ create_fresh base_url input idempotency_key method path at
    | some out ↦ pure out
  ]
