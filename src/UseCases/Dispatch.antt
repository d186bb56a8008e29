-- ===== src/UseCases/Dispatch.antt =====
-- internal/application/operations/dispatch.go. Paths are joined as filepath.Join joins clean parts.
pub mod Loop
pub mod Stored
pub mod Outcome
use update_service.Base.{
  ℕ, zero, suc, ◌+◌, ◌*◌, ◌/◌, ◌^◌, ◌==◌, String, Option, none, some, List, [], ◌∷◌, if◌then◌else◌,
  cat, decimal, length, take, drop,
}
use update_service.Domain.Json.{Json, Fields, str, num, obj, end, field}
use update_service.Domain.Operation.{
  OperationStatus, Operation, InputFile, dispatched, waiting_for_ack,
}
use update_service.Domain.Job.{
  Job, JobAttempt, FileTransfer, FileChunk, JobStatus, job_assigned, job_dispatched, command_sent,
  transfer_created,
}
use update_service.Domain.Event.{OperationEvent, operation_dispatched}
use update_service.Effect.{
  Env, World, bytes, operation_not_found, external, M, panic, ok, ◌>>=◌, ◌>>◌, pure, throw,
  nil_panic, get_env, get_world, call, now, ignore_error,
}
use update_service.Nats.{publish_with_headers, publish_command, transfer_chunks_subject}
use update_service.Repositories.Operations
use update_service.Repositories.Jobs
use update_service.Repositories.Attempts
use update_service.Repositories.Transfers
use update_service.Repositories.Chunks
use update_service.Repositories.Events
use update_service.Scheduling.{ScheduleResult, select_worker}
use update_service.Transfer.Bytes.{bytes_at}
use update_service.Transfer.Sender.{Headers, chunk_id}
use update_service.UseCases.Create.{generate_id, status_url}
use update_service.UseCases.Retry.{lease}

pub record DispatchOperationInput : Type 0 where
  pub operation_id : String
  pub processor : String

pub record DispatchOperationOutput : Type 0 where
  pub operation_id : String
  pub status : OperationStatus
  pub job_id : String
  pub attempt_id : String
  pub worker_node_id : String
  pub status_url : String
  pub updated_at : ℕ
  pub version : ℕ

-- `s[4:]`, which panics if the text is shorter.
abbrev pub cut : ℕ → String → M String
cut zero s = pure s
cut (suc n) (String.[]) = nil_panic
cut (suc n) (String.◌∷◌ c s) = cut n s

-- `fmt.Sprintf("…-%s", generateID("")[4:])`
unfoldable pub generate_short_id : String → M String
unfolding generate_id
generate_short_id prefix = do id ← generate_id ""; short ← cut 4 id; pure (cat prefix short)

-- The identifiers that a dispatch draws, and the time that it starts with.
pub record Plan : Type 0 where
  pub at : ℕ
  pub worker_node_id : String
  pub job_id : String
  pub attempt_id : String
  pub command_id : String
  pub claim_token : String

-- Half an hour, in nanoseconds.
abbrev pub half_hour : ℕ
half_hour = 1800 * 10 ^ 9

-- `fmt.Sprintf("transfer-%s-%d", op.ID.String(), now.UnixNano())`
unfoldable pub transfer_id : String → ℕ → String
transfer_id operation_id at = cat "transfer-" (cat operation_id (cat "-" (decimal at)))

unfoldable pub dispatched_transfer : String → Operation → InputFile → Plan → FileTransfer
unfolding transfer_id
dispatched_transfer staging_dir op file plan = record {
  id = transfer_id op.id plan.at;
  attempt_id = plan.attempt_id;
  operation_id = op.id;
  file_id = cat "file-" op.id;
  source_node_id = "self";
  destination_node_id = plan.worker_node_id;
  file_size_bytes = file.size_bytes;
  chunk_size_bytes = 65536;
  total_chunks = (file.size_bytes + 65535) / 65536;
  file_checksum = file.sha256;
  checksum_algorithm = "sha256";
  status = transfer_created;
  staging_path = cat staging_dir (cat "/" op.id);
  staging_reservation_id = none;
  deadline_at = plan.at + half_hour;
  accepted_at = none;
  completed_at = none;
  received_chunks = 0;
  error = none;
  version = 1;
}

-- The inner object of `startTransferPayload`, which the worker hands to `AcceptTransfer`: it does not
-- name the operation.
unfoldable pub start_payload : (ℕ → String) → Plan → FileTransfer → Fields
start_payload rfc3339 plan t = field "attempt_id" (str plan.attempt_id) (
    field "transfer_id" (str t.id) (
      field "file_id" (str t.file_id) (
        field "source_node_id" (str "self") (
          field "destination_node_id" (str plan.worker_node_id) (
            field "file_size_bytes" (num t.file_size_bytes) (
              field "chunk_size_bytes" (num t.chunk_size_bytes) (
                field "total_chunks" (num t.total_chunks) (
                  field "file_sha256" (str t.file_checksum) (
                    field "checksum_algorithm" (str "sha256")
                      (field "transfer_deadline_at" (str (rfc3339 t.deadline_at)) end))))))))))

-- `startTransferPayload`
unfoldable pub start_transfer : (ℕ → String) → Plan → FileTransfer → Json
unfolding start_payload
start_transfer rfc3339 plan t = obj (
    field "command_id" (str plan.command_id) (
      field "operation_id" (str t.operation_id) (
        field "job_id" (str plan.job_id) (
          field "type" (str "START_TRANSFER")
            (field "payload" (obj (start_payload rfc3339 plan t)) end)))))

-- The payload of PROCESS_UPDATE: it does not name the transfer.
unfoldable pub process_update : Plan → Operation → String → Json
process_update plan op processor = obj (
    field "command_id" (str plan.command_id) (
      field "operation_id" (str op.id) (
        field "job_id" (str plan.job_id) (
          field "type" (str "PROCESS_UPDATE") (
            field "payload"
              (obj
                (field "attempt_id" (str plan.attempt_id) (field "processor" (str processor) end)))
              end)))))

-- What the loop reads for an index: the file is read from its start, a full buffer at a time.
abbrev pub read_at : FileTransfer → List ℕ → ℕ → List ℕ
read_at t file index = take t.chunk_size_bytes (drop (index * t.chunk_size_bytes) file)

unfoldable pub published_chunk : (List ℕ → String) → FileTransfer → List ℕ → ℕ → FileChunk
published_chunk sha256 t payload index = record {
  id = chunk_id t.id index;
  transfer_id = t.id;
  chunk_index = index;
  chunk_offset = index * t.chunk_size_bytes;
  chunk_size = length payload;
  checksum = sha256 payload;
  publish_state = "published";
  ack_state = "pending";
  received_at = none;
  acknowledged_at = none;
  version = 1;
}

unfoldable pub dispatch_headers : (List ℕ → String) → FileTransfer → List ℕ → ℕ → Headers
dispatch_headers sha256 t payload index =
    ("Nats-Msg-Id", chunk_id t.id index)
    ∷ ("X-Chunk-Index", decimal index)
    ∷ ("X-Offset", decimal (index * t.chunk_size_bytes))
    ∷ ("X-Payload-Length", decimal (length payload))
    ∷ ("X-Chunk-SHA256", sha256 payload)
    ∷ ("X-Transfer-Id", t.id)
    ∷ []

-- One round of the loop behind the read: a publication that fails is only logged.
unfoldable pub send_chunk : FileTransfer → List ℕ → ℕ → M (Unit {0})
unfolding published_chunk dispatch_headers publish_with_headers transfer_chunks_subject ignore_error
send_chunk t payload index = do
  env ← get_env
  Chunks.upsert (published_chunk env.sha256 t payload index)
  ignore_error (
      publish_with_headers (transfer_chunks_subject t.id) (bytes payload)
        (dispatch_headers env.sha256 t payload index))

-- The loop, with the rounds that are left; it ends early when nothing is read.
unfoldable pub send_chunks : FileTransfer → List ℕ → ℕ → ℕ → M (Unit {0})
unfolding call
send_chunks t file zero index = pure tt
send_chunks t file (suc rounds) index =
    let rest = send_chunks t file rounds (suc index) in
    do
      call
      (if length (read_at t file index) == 0
          then pure tt
          else (do send_chunk t (read_at t file index) index; rest))

abbrev opened : Option (List ℕ) → M (List ℕ)
opened none = throw external
opened (some content) = pure content

-- `os.Open`, which fails for a file that is not there, and `Stat`.
unfoldable pub open_input : String → M (List ℕ)
unfolding call
open_input path = do
  call
  w ← get_world
  content ← opened (bytes_at path w.files)
  call
  pure content

-- `publishFileChunks`
unfoldable pub publish_file_chunks : FileTransfer → M (Unit {0})
unfolding open_input send_chunks
publish_file_chunks t = do
  file ← open_input (cat t.staging_path "/input")
  send_chunks t file t.total_chunks 0

unfoldable pub dispatched_job : Operation → Plan → String → ℕ → Job
dispatched_job op plan processor at = record {
  id = plan.job_id;
  operation_id = op.id;
  worker_node_id = plan.worker_node_id;
  status = job_dispatched;
  processor = processor;
  requirements = none;
  assigned_at = plan.at;
  dispatched_at = some at;
  acknowledged_at = none;
  completed_at = none;
  error = none;
  version = 1;
}

unfoldable pub dispatched_attempt : Operation → Plan → JobAttempt
dispatched_attempt op plan = record {
  id = plan.attempt_id;
  job_id = plan.job_id;
  operation_id = op.id;
  node_id = plan.worker_node_id;
  attempt_number = suc op.retry_count;
  status = command_sent;
  command_id = plan.command_id;
  claim_token = plan.claim_token;
  lease_until = plan.at + lease;
  processing_id = none;
  error = none;
  started_at = none;
  completed_at = none;
  version = 1;
}

-- The operation as the dispatch writes it: the transfer's id is not kept.
unfoldable pub dispatched_operation : Operation → Plan → ℕ → Operation
dispatched_operation op plan at = record op {
  status = dispatched;
  stage = waiting_for_ack;
  updated_at = at;
  current_job_id = some plan.job_id;
  current_attempt_id = some plan.attempt_id;
  version = suc op.version;
}

unfoldable pub dispatched_event : Operation → Plan → String → String → ℕ → OperationEvent
dispatched_event op plan transfer id at = record {
  id = id;
  operation_id = op.id;
  event_type = operation_dispatched;
  job_id = none;
  attempt_id = none;
  transfer_id = none;
  payload = field "job_id" (str plan.job_id) (
      field "attempt_id" (str plan.attempt_id) (
        field "worker_node_id" (str plan.worker_node_id) (field "transfer_id" (str transfer) end)));
  correlation_id = op.id;
  issued_at = at;
  actor_node_id = "self";
  version = 1;
}

-- `DispatchOperationUseCase`: its address and its directory.
module _ (base_url staging_dir : String) where
  -- The part of `Execute` behind the commands.
  unfoldable pub record_dispatch :
      DispatchOperationInput → Operation → FileTransfer → Plan → M DispatchOperationOutput
  unfolding now ignore_error dispatched_job dispatched_attempt dispatched_operation dispatched_event
      generate_id
  record_dispatch input loaded t plan = do
    at ← now
    Jobs.create (dispatched_job loaded plan input.processor at)
    Attempts.create (dispatched_attempt loaded plan)
    let op = dispatched_operation loaded plan at
    Operations.update op
    id ← generate_id "evt"
    ignore_error (Events.append (dispatched_event op plan t.id id at))
    pure (record {
      operation_id = op.id;
      status = op.status;
      job_id = plan.job_id;
      attempt_id = plan.attempt_id;
      worker_node_id = plan.worker_node_id;
      status_url = status_url base_url op.id;
      updated_at = at;
      version = op.version;
    })

  -- The transfer, the two commands and the chunks between them.
  unfoldable pub send_dispatch :
      DispatchOperationInput → Operation → FileTransfer → Plan → M DispatchOperationOutput
  unfolding start_transfer process_update publish_command publish_file_chunks ignore_error
      record_dispatch
  send_dispatch input op t plan = do
    Transfers.create t
    env ← get_env
    publish_command plan.worker_node_id (start_transfer env.rfc3339 plan t)
    ignore_error (publish_file_chunks t)
    publish_command plan.worker_node_id (process_update plan op input.processor)
    record_dispatch input op t plan

  -- The identifiers in the order in which they are drawn.
  unfoldable pub make_plan : ScheduleResult → M Plan
  unfolding now generate_id generate_short_id
  make_plan worker = do
    at ← now
    job_id ← generate_id "job"
    attempt_id ← generate_id "attempt"
    command_id ← generate_short_id "cmd-"
    claim_token ← generate_short_id "claim-"
    pure (record {
      at = at;
      worker_node_id = worker.node_id;
      job_id = job_id;
      attempt_id = attempt_id;
      command_id = command_id;
      claim_token = claim_token;
    })

  -- The log line behind the read takes the size of the input file, nil or not.
  unfoldable pub dispatch_file :
      DispatchOperationInput → Operation → Option InputFile → M DispatchOperationOutput
  unfolding make_plan send_dispatch dispatched_transfer select_worker
  dispatch_file input op none = nil_panic
  dispatch_file input op (some file) = do
    worker ← select_worker
    plan ← make_plan worker
    send_dispatch input op (dispatched_transfer staging_dir op file plan) plan

  unfoldable pub dispatch_loaded :
      DispatchOperationInput → Option Operation → M DispatchOperationOutput
  unfolding dispatch_file
  dispatch_loaded input none = throw operation_not_found
  dispatch_loaded input (some op) = dispatch_file input op op.input_file

  -- `DispatchOperationUseCase.Execute`
  unfoldable pub execute : DispatchOperationInput → M DispatchOperationOutput
  unfolding dispatch_loaded
  execute input = do op ← Operations.get_by_id input.operation_id; dispatch_loaded input op
