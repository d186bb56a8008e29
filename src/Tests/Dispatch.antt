-- ===== src/Tests/Dispatch.antt =====
-- internal/application/operations/dispatch.go and its worker at a file of three bytes.
use update_service.Base.{ℕ, ◌≡◌, refl, List, [], ◌∷◌, ◌++◌}
use update_service.Domain.Job.{FileTransfer}
use update_service.Domain.Operation.{InputFile}
use update_service.Effect.{World, bytes, Returns}
use update_service.Effect.Post.{Post}
use update_service.Repositories.Operations.{row_to_operation}
use update_service.Transfer.Sender.{total_chunks}
use update_service.UseCases.Dispatch.{
  DispatchOperationInput, Plan, dispatched_transfer, publish_file_chunks, execute,
}
use update_service.UseCases.Dispatch.Loop.{
  chunk_message, newest_first, joined, publish_file_chunks-published,
}
use update_service.UseCases.Dispatch.Outcome.{HasDigits, Dispatched, Refused, dispatch-outcome}
use update_service.Tests.Worlds.{
  node, input_file, failed_row, next_operation, world, reliable, drawing, reliable-IsReliable,
}

abbrev file : List ℕ
file = 7 ∷ 8 ∷ 9 ∷ []

abbrev plan : Plan
plan = record {
  at = 5;
  worker_node_id = "node-b";
  job_id = "job-7";
  attempt_id = "attempt-7";
  command_id = "cmd-7";
  claim_token = "claim-7";
}

abbrev small_file : InputFile
small_file = record { size_bytes = 3; sha256 = "ab12"; file_name = "update.bin" }

abbrev sent_transfer : FileTransfer
sent_transfer = dispatched_transfer "/staging" next_operation small_file plan

abbrev stocked : World
stocked = record world {
  db = record world.db { nodes = node ∷ []; transfers = sent_transfer ∷ [] };
  files = ("/staging/op-1/input", bytes file) ∷ [];
}

publish_file_chunks-published_example :
    Returns (publish_file_chunks sent_transfer reliable stocked) (λ _ w'.
      (w'.published
        ≡ newest_first (chunk_message reliable.sha256 sent_transfer file) sent_transfer.total_chunks
          ++ stocked.published)
      × (joined (
            newest_first
              (chunk_message reliable.sha256 sent_transfer file)
              sent_transfer.total_chunks)
          ≡ file))
unfolding total_chunks dispatched_transfer
publish_file_chunks-published_example =
    publish_file_chunks-published sent_transfer file reliable stocked reliable-IsReliable refl refl
      refl

abbrev dispatch_input : DispatchOperationInput
dispatch_input = record { operation_id = "op-1"; processor = "firmware" }

sixteen_bytes-HasDigits : HasDigits drawing
sixteen_bytes-HasDigits n = refl

dispatch-outcome_example :
    Post
      (execute "http://localhost:8080" "/staging" dispatch_input drawing stocked)
      (Dispatched dispatch_input failed_row input_file stocked)
      (Refused dispatch_input failed_row input_file stocked)
unfolding row_to_operation
dispatch-outcome_example =
    dispatch-outcome "http://localhost:8080" "/staging" dispatch_input failed_row input_file drawing
      stocked sixteen_bytes-HasDigits refl refl
