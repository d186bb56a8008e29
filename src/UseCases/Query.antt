-- ===== src/UseCases/Query.antt =====
-- internal/application/operations: get.go and result.go.
pub mod Ready
use update_service.Base.{String, Option, none, some, if◌then◌else◌}
use update_service.Domain.Operation.{Operation, completed, same_status}
use update_service.Effect.{operation_not_found, result_not_ready, M, ◌>>=◌, pure, throw}
use update_service.Effect.Tables.{OperationResult}
use update_service.Repositories.Operations
use update_service.Repositories.Events

-- `GetOperationUseCase.Execute`
unfoldable pub get_operation : String → M (Option Operation)
get_operation id = Operations.get_by_id id

abbrev pub stored_result : Option OperationResult → M OperationResult
stored_result none = throw result_not_ready
stored_result (some r) = pure r

unfoldable pub result_loaded : Option Operation → M OperationResult
result_loaded none = throw operation_not_found
result_loaded (some op) =
    if same_status op.status completed
    then (do r ← Events.get_result_by_operation_id op.id; stored_result r)
    else throw result_not_ready

-- `GetResultOperationUseCase.Execute`: no retention policy is checked.
unfoldable pub get_result : String → M OperationResult
unfolding result_loaded
get_result id = do op ← Operations.get_by_id id; result_loaded op
