-- ===== src/Tests/Http.antt =====
-- Requests and their answers.
use update_service.Base.{refl, String, none, some, [], str_eq, if◌then◌else◌}
use update_service.Effect.{Error, Returns}
use update_service.Repositories.Operations.Locking.{row_of}
use update_service.Http.{Request, CreateOperationRequest}
use update_service.Http.Commands.{cancel_operations}
use update_service.Http.Routes.Codes.{cancel-codes, CancelMeans}
use update_service.Tests.Worlds.{world, reliable, reliable-IsReliable}

abbrev error_text : Error → String
error_text x = "error"

abbrev invalid_text : CreateOperationRequest → String
invalid_text r = "processor is required"

-- A request about the operation that failed.
abbrev request : Request
request = record {
  method = "POST";
  path = "/api/v1/operations/op-1/cancel";
  id = "op-1";
  content_type = "application/json";
  header = λ key. if str_eq key "Idempotency-Key" then "key-1" else "";
  query = λ key. "";
  content_length = some 20;
  body = [];
  form = none;
  create_request = none;
  reason_request = some "not needed";
}

cancel-codes_example :
    Returns
      (cancel_operations error_text "http://localhost" "/staging" 1000 request reliable world)
      (CancelMeans error_text "http://localhost" "/staging" 1000 request reliable world
        (row_of "op-1" world))
cancel-codes_example =
    cancel-codes error_text "http://localhost" "/staging" 1000 request reliable world "not needed"
      reliable-IsReliable refl refl refl
