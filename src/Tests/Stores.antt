-- ===== src/Tests/Stores.antt =====
-- internal/infrastructure/mariadb/repositories at a world with one operation and one transfer.
use update_service.Base.{◌&&◌, ◌==◌, ◌≡◌, refl, inl, none, some, if◌then◌else◌}
use update_service.Domain.Json.{str}
use update_service.Domain.Operation.{Operation, queued, failed, same_status}
use update_service.Domain.Job.{FileTransfer, transfer_accepted, transfer_completed}
use update_service.Effect.{row_not_found, err, ◌>>◌, Returns, World, world_of}
use update_service.Repositories.Operations.{moved, scanned, transition, get_by_id, update}
use update_service.Repositories.Operations.Locking.{row_of, update-update_lost, transition-cases}
use update_service.Repositories.Idempotency
use update_service.Repositories.Idempotency.{IsError, idempotency_unusable}
use update_service.Tests.Worlds.{
  failed_row, next_operation, transfer, world, reliable, reliable-IsReliable,
}

abbrev fresh : Operation
fresh = record next_operation { error = none }

abbrev stale : Operation
stale = record next_operation { version = 4 }

abbrev rival : Operation
rival = record next_operation { status = failed; processor = "other" }

update-update_lost_example :
    Returns
      ((update next_operation >> (update rival >> get_by_id "op-1")) reliable world)
      (λ o _. o ≡ some next_operation)
update-update_lost_example =
    update-update_lost next_operation rival failed_row reliable world reliable-IsReliable (refl, tt)
      refl refl refl refl
      (record {
        id = refl;
        max_attempts = refl;
        client_reference = refl;
        created_at = refl;
        deadline = refl;
      })
      (inl refl)

transition-cases_example :
    if same_status failed failed && (4 == 4)
    then Returns (transition "op-1" failed queued 4 reliable world) (λ o w'.
      (row_of "op-1" w' ≡ some (moved queued 2 failed_row)) × (o ≡ scanned (row_of "op-1" w')))
    else ((w' : World) × (transition "op-1" failed queued 4 reliable world ≡ err row_not_found w')
        × (w'.db ≡ world.db))
transition-cases_example =
    transition-cases "op-1" failed queued 4 failed_row reliable world reliable-IsReliable (refl, tt)
      refl

abbrev accepted : FileTransfer
accepted = record transfer { status = transfer_accepted; accepted_at = some 5 }

abbrev finished : FileTransfer
finished = record transfer {
  status = transfer_completed;
  completed_at = some 9;
  received_chunks = 2;
}

idempotency_unusable_example :
    (IsError (Idempotency.store "k" "POST" "/x" "ff" (str "{}") 90 reliable world)
      × ((world_of (Idempotency.store "k" "POST" "/x" "ff" (str "{}") 90 reliable world)).db
          ≡ world.db))
    × (IsError (Idempotency.get "k" "POST" "/x" reliable world)
        × ((world_of (Idempotency.get "k" "POST" "/x" reliable world)).db ≡ world.db))
    × (IsError (Idempotency.delete "k" "POST" "/x" reliable world)
        × ((world_of (Idempotency.delete "k" "POST" "/x" reliable world)).db ≡ world.db))
idempotency_unusable_example =
    idempotency_unusable "k" "POST" "/x" "ff" (str "{}") 90 reliable world
