-- ===== src/UseCases/Cancel.antt =====
-- internal/application/operations/cancel.go
pub mod Intent
use update_service.Base.{
  ℕ, suc, String, Bool, ◌||◌, Option, none, some, if◌then◌else◌, hex_number, cat,
}
use update_service.Domain.Json.{str, end, field}
use update_service.Domain.Operation.{OperationStatus, Operation, completed, cancelled, same_status}
use update_service.Domain.Event.{OperationEvent, operation_cancelled}
use update_service.Effect.{
  Error, operation_not_found, already_terminal, M, ◌>>=◌, ◌>>◌, pure, throw, now, ignore_error,
}
use update_service.Repositories.Operations
use update_service.Repositories.Events
use update_service.UseCases.Create.{status_url}

pub record CancelOperationInput : Type 0 where
  pub operation_id : String
  pub reason : String

pub record CancelOperationOutput : Type 0 where
  pub operation_id : String
  pub status : OperationStatus
  pub cancel_requested_at : ℕ
  pub status_url : String
  pub version : ℕ

-- The operation as `Execute` writes it: the wish is recorded, and the status stays.
unfoldable pub cancel_requested : Operation → ℕ → Operation
cancel_requested op at = record op {
  cancel_requested_at = some at;
  updated_at = at;
  version = suc op.version;
}

unfoldable pub cancel_event : Operation → String → ℕ → ℕ → OperationEvent
cancel_event op reason id_time at = record {
  id = cat "evt-" (hex_number id_time);
  operation_id = op.id;
  event_type = operation_cancelled;
  job_id = none;
  attempt_id = none;
  transfer_id = none;
  payload = field "reason" (str reason) end;
  correlation_id = op.id;
  issued_at = at;
  actor_node_id = "self";
  version = op.version;
}

-- The part of `Execute` behind the status check.
unfoldable pub cancel_open : String → CancelOperationInput → Operation → M CancelOperationOutput
unfolding now ignore_error
cancel_open base_url input loaded = do
  at ← now
  let op = cancel_requested loaded at
  Operations.update op
  id_time ← now
  ignore_error (Events.append (cancel_event op input.reason id_time at))
  pure (record {
    operation_id = op.id;
    status = op.status;
    cancel_requested_at = at;
    status_url = status_url base_url op.id;
    version = op.version;
  })

unfoldable pub cancel_loaded :
    String → CancelOperationInput → Option Operation → M CancelOperationOutput
cancel_loaded base_url input none = throw operation_not_found
cancel_loaded base_url input (some op) =
    if same_status op.status completed || same_status op.status cancelled
    then throw already_terminal
    else cancel_open base_url input op

-- `CancelOperationUseCase.Execute`. The output that goes with `ErrAlreadyTerminal` is not part of
-- the error here: the handler drops it.
unfoldable pub execute : String → CancelOperationInput → M CancelOperationOutput
unfolding cancel_loaded
execute base_url input = do
  op ← Operations.get_by_id input.operation_id
  cancel_loaded base_url input op
