-- ===== src/Repositories/Events.antt =====
-- internal/infrastructure/mariadb/repositories: event_repository.go and result_repository.go.
use update_service.Base.{
  ℕ, String, not, Option, List, ◌∷◌, ◌==◌, is_some, if◌then◌else◌, str_eq, find_key, select_where,
  order_by, take,
}
use update_service.Domain.Event.{OperationEvent}
use update_service.Effect.{external, M, ◌>>=◌, ◌>>◌, pure, guard, get_world, modify_db, call, in_tx}
use update_service.Effect.Tables.{OperationResult}

-- `OperationEventRepository.Append`: an insert in a transaction, refused if the id is taken.
unfoldable pub append : OperationEvent → M (Unit {0})
unfolding in_tx call
append evt = in_tx (do
  call
  w ← get_world
  guard (not (is_some (find_key OperationEvent.id evt.id w.db.events))) external
  modify_db (λ db. record db { events = evt ∷ db.events }))

-- `OperationEventRepository.GetByOperationID`: a limit of zero is 100.
unfoldable pub get_by_operation_id : String → ℕ → M (List OperationEvent)
unfolding call
get_by_operation_id operation_id limit = do
  call
  w ← get_world
  pure (
      take (if limit == 0 then 100 else limit) (
        order_by OperationEvent.issued_at
          (select_where (λ evt. str_eq evt.operation_id operation_id) w.db.events)))

-- `ResultRepository.Create`
unfoldable pub create_result : OperationResult → M (Unit {0})
unfolding in_tx call
create_result r = in_tx (do
  call
  w ← get_world
  guard (not (is_some (find_key OperationResult.id r.id w.db.results))) external
  modify_db (λ db. record db { results = r ∷ db.results }))

-- `ResultRepository.GetByOperationID`
unfoldable pub get_result_by_operation_id : String → M (Option OperationResult)
unfolding call
get_result_by_operation_id operation_id = do
  call
  w ← get_world
  pure (find_key OperationResult.operation_id operation_id w.db.results)
