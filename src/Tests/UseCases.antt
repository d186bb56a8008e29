-- ===== src/Tests/UseCases.antt =====
-- internal/application/operations and internal/app/role.go at a world with one operation.
use update_service.Base.{All, ◌⊎◌, false, ◌∷◌, [], ◌≡◌, refl, String, none, true, arith}
use update_service.Domain.Json.{end}
use update_service.Effect.{ok, World, external, no_healthy_worker}
use update_service.Effect.Post.{Post}
use update_service.Domain.Event.{OperationEvent}
use update_service.UseCases.Create
use update_service.UseCases.Create.{CreateOperationInput, created_event}
use update_service.UseCases.Create.Insert.{Inserted, Unchanged, execute-inserts}
use update_service.UseCases.Cancel
use update_service.UseCases.Cancel.{CancelOperationInput}
use update_service.UseCases.Cancel.Intent.{SameStatus, execute-status}
use update_service.UseCases.Retry
use update_service.UseCases.Retry.{RetryOperationInput}
use update_service.UseCases.Retry.Budget.{Refused, IsWithin, execute-IsWithin}
use update_service.UseCases.Retry.Outcome.{Requeued, execute-outcome}
use update_service.UseCases.Query.{get_result}
use update_service.UseCases.Query.Ready.{IsReady, Reason, get_result-Post}
use update_service.UseCases.Upload
use update_service.UseCases.Upload.{FileOperationInput}
use update_service.UseCases.Upload.Staged
use update_service.UseCases.Upload.Outcome.{Uploaded, upload-outcome}
use update_service.Domain.Node.{Node}
use update_service.Scheduling.{select_worker}
use update_service.Scheduling.Choice.{IsChoice, is_worker, select_worker-Post}
use update_service.Coordinator.{handle_event, consume, marshal_event}
use update_service.Coordinator.Lost.{handle_event-lost}
use update_service.Coordinator.Unheard.{consume-marshal_event}
use update_service.Tests.Worlds.{
  node, failed_row, fresh_row, world, waiting_world, reliable, broken,
}

abbrev base_url : String
base_url = "http://localhost:8080"

abbrev new_input : CreateOperationInput
new_input = record {
  processor = "firmware";
  deadline = none;
  retry_policy = none;
  client_reference = "ref-8";
}

execute-inserts_example :
    Post
      (Create.execute base_url new_input "key-1" "POST" "/api/v1/operations" reliable world)
      (Inserted base_url new_input 0 world)
      (Unchanged base_url new_input 0 world)
execute-inserts_example =
    execute-inserts base_url new_input "key-1" "POST" "/api/v1/operations" reliable world

abbrev cancel_input : CancelOperationInput
cancel_input = record { operation_id = "op-1"; reason = "operator" }

execute-status_example :
    Post
      (Cancel.execute base_url cancel_input broken world)
      (λ _ w'. SameStatus base_url cancel_input broken world w')
      (λ _ w'. SameStatus base_url cancel_input broken world w')
execute-status_example = execute-status base_url cancel_input broken world

abbrev retry_input : RetryOperationInput
retry_input = record { operation_id = "op-1"; reason = "operator" }

execute-outcome_example :
    Post
      (Retry.execute base_url retry_input reliable world)
      (Requeued base_url retry_input failed_row world)
      (Refused base_url retry_input failed_row world.db.operations 1)
execute-outcome_example = execute-outcome base_url retry_input failed_row reliable world refl

world-IsWithin : IsWithin world.db.operations
world-IsWithin id row found = ground arith

execute-IsWithin_example :
    Post
      (Retry.execute base_url retry_input reliable world)
      (λ _ w'. IsWithin w'.db.operations)
      (λ _ w'. IsWithin w'.db.operations)
execute-IsWithin_example = execute-IsWithin base_url retry_input reliable world world-IsWithin

get_result-Post_example :
    Post
      (get_result "op-1" reliable world)
      (λ r w'. IsReady "op-1" world r × (w'.db ≡ world.db))
      (λ x w'. Reason "op-1" world x × (w'.db ≡ world.db))
get_result-Post_example = get_result-Post "op-1" reliable world

handle_event-lost_example :
    Post
      (handle_event "node-a" true "ProcessingSucceeded" "op-1" end reliable world)
      (λ _ w'. w'.db.operations ≡ world.db.operations)
      (λ _ _. ⊥)
handle_event-lost_example =
    handle_event-lost "node-a" true "ProcessingSucceeded" "op-1" end reliable world (refl, tt)

abbrev test_event : OperationEvent
test_event = created_event new_input "op-1" "evt-1" 5

consume-marshal_event_example :
    consume "node-a" true (marshal_event test_event) reliable world ≡ ok tt world
consume-marshal_event_example = consume-marshal_event "node-a" true test_event reliable world

abbrev upload_input : FileOperationInput
upload_input = record {
  operation_id = "op-2";
  body = 7 ∷ 8 ∷ 9 ∷ [];
  headers = ("Digest", "SHA-256=ab12") ∷ ("X-File-Name", "update.bin") ∷ [];
}

upload-outcome_example :
    Post
      (Upload.execute "/staging" 1000 base_url upload_input reliable waiting_world)
      (Uploaded "/staging" 1000 base_url upload_input fresh_row reliable waiting_world)
      (Staged.Refused "/staging" 1000 base_url upload_input fresh_row reliable waiting_world)
upload-outcome_example =
    upload-outcome "/staging" 1000 base_url upload_input fresh_row reliable waiting_world refl

abbrev cluster : World
cluster = record world { db = record world.db { nodes = node ∷ [] } }

select_worker-Post_example :
    Post
      (select_worker reliable cluster)
      (λ r w'.
        ((n : Node) × ((r.node_id ≡ n.id) × IsChoice cluster.db.nodes n)) × (w'.db ≡ cluster.db))
      (λ x w'.
        ((x ≡ external)
          ⊎ ((x ≡ no_healthy_worker) × All (λ m. is_worker m ≡ false) cluster.db.nodes))
        × (w'.db ≡ cluster.db))
select_worker-Post_example = select_worker-Post reliable cluster
