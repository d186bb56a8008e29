-- ===== src/Transfer/Receiver.antt =====
-- receiver.go: `FinalizeTransfer` and `handleChunk`. A chunk is handled under the transfer's lock, so
-- it is a function of the active transfer. A WriteAt that fails has written nothing.
use update_service.Base.{
  ℕ, String, false, not, ◌||◌, Option, none, some, List, ◌∷◌, if◌then◌else◌, ◌==◌, str_eq, length,
  cat, decimal,
}
use update_service.Domain.Json.{num, str, obj, end, field}
use update_service.Domain.Job.{FileTransfer, transfer_completed}
use update_service.Domain.Event.{OperationEvent, chunk_accepted, transfer_verified}
use update_service.Effect.{
  Error, external, failure, Content, json, M, ok, ◌>>=◌, ◌>>◌, pure, get_env, get_world, call, now,
  ignore_error, attempt,
}
use update_service.Repositories.Transfers
use update_service.Repositories.Chunks
use update_service.Repositories.Events
use update_service.Coordinator.{marshal_event}
use update_service.Transfer.Sender.{Headers, publish_event}
use update_service.Transfer.Active.{
  ActiveTransfer, ChunkMessage, read_chunk, has_chunk, stored_chunk, with_chunk, content_of,
  write_file_at,
}

-- `os.WriteFile`
unfoldable pub write_file : String → Content → M (Unit {0})
unfolding call
write_file path content = do call; λ _ w. ok tt (record w { files = (path, content) ∷ w.files })

-- What `FinalizeTransfer` leaves of the transfer, and its error, which both callers only log.
pub record Finalized : Type 0 where
  pub active : ActiveTransfer
  pub error : Option Error

abbrev after_call : Option (Unit {0}) → ActiveTransfer → M Finalized → M Finalized
after_call none active rest = pure (record { active = active; error = some external })
after_call (some _) active rest = rest

-- `if err := f(); err != nil { return … }`
abbrev pub or_stop : M (Unit {0}) → ActiveTransfer → M Finalized → M Finalized
or_stop m active rest = do r ← attempt m; after_call r active rest

abbrev pub stop : ActiveTransfer → String → M Finalized
stop active message = pure (record { active = active; error = some (failure message) })

-- `TransferReceiver`: its node.
module _ (node_id : String) where
  unfoldable pub verified_event : FileTransfer → String → String → ℕ → ℕ → OperationEvent
  verified_event transfer transfer_id checksum id_time at = record {
    id = cat "evt-" (cat transfer.id (cat "-" (decimal id_time)));
    operation_id = transfer.operation_id;
    event_type = transfer_verified;
    job_id = none;
    attempt_id = none;
    transfer_id = none;
    payload = field "transfer_id" (str transfer_id) (field "file_sha256" (str checksum) end);
    correlation_id = transfer.operation_id;
    issued_at = at;
    actor_node_id = node_id;
    version = 1;
  }

  -- `FinalizeTransfer` behind the check of the digest.
  unfoldable pub finish : ActiveTransfer → String → String → M Finalized
  unfolding attempt now ignore_error
  finish active transfer_id checksum = or_stop call active (do
    at ← now
    let transfer = record active.transfer {
      status = transfer_completed;
      completed_at = some at;
      received_chunks = active.total_chunks;
    }
    let closed = record active { is_open = false; transfer = transfer }
    or_stop (Transfers.update transfer) closed (do
      let manifest = obj (
          field "transfer_id" (str transfer.id) (
            field "operation_id" (str transfer.operation_id) (
              field "file_sha256" (str checksum) (
                field "total_bytes" (num active.total_bytes) (
                  field "total_chunks" (num active.total_chunks)
                    (field "finalized_at" (num at) end))))))
      ignore_error (write_file active.manifest_path (json manifest))
      id_time ← now
      let evt = verified_event transfer transfer_id checksum id_time at
      ignore_error (Events.append evt)
      ignore_error (publish_event (marshal_event evt))
      pure (record { active = closed; error = none })))

  -- `FinalizeTransfer`: sync, stat, the size, seek, copy into the digest, the digest, close.
  unfoldable pub finalize : ActiveTransfer → String → M Finalized
  unfolding attempt finish
  finalize active transfer_id = or_stop call active (
      or_stop call active (do
        w ← get_world
        let content = content_of active.path w
        (if not (length content == active.total_bytes)
            then stop active "final file size mismatch"
            else or_stop call active (
                or_stop call active (do
                  env ← get_env
                  (if not (str_eq (env.sha256 content) active.file_sha256)
                      then stop active "file checksum mismatch"
                      else finish active transfer_id (env.sha256 content)))))))

  unfoldable pub chunk_event : FileTransfer → ChunkMessage → ℕ → ℕ → OperationEvent
  chunk_event transfer m id_time at = record {
    id =
        cat "evt-chunk-"
          (cat m.transfer_id (cat "-" (cat (decimal m.index) (cat "-" (decimal id_time)))));
    operation_id = transfer.operation_id;
    event_type = chunk_accepted;
    job_id = some transfer.id;
    attempt_id = some transfer.id;
    transfer_id = some transfer.id;
    payload =
        field "chunk_index" (num m.index)
          (field "offset" (num m.offset) (field "bytes" (num (length m.payload)) end));
    correlation_id = transfer.operation_id;
    issued_at = at;
    actor_node_id = node_id;
    version = 1;
  }

  -- The part of `handleChunk` behind the write.
  unfoldable pub chunk_stored : ActiveTransfer → ChunkMessage → M ActiveTransfer
  unfolding now ignore_error finalize
  chunk_stored active m = do
    let grown = with_chunk active m
    ignore_error (Chunks.upsert (stored_chunk m))
    id_time ← now
    at ← now
    let evt = chunk_event active.transfer m id_time at
    ignore_error (Events.append evt)
    ignore_error (publish_event (marshal_event evt))
    (if length grown.received == active.total_chunks
        then (do done ← finalize grown m.transfer_id; pure done.active)
        else pure grown)

  abbrev pub chunk_written : ActiveTransfer → ChunkMessage → Option (Unit {0}) → M ActiveTransfer
  chunk_written active m none = pure active
  chunk_written active m (some _) = chunk_stored active m

  unfoldable pub chunk_read : ActiveTransfer → Option ChunkMessage → M ActiveTransfer
  unfolding attempt chunk_stored
  chunk_read active none = pure active
  chunk_read active (some m) =
      if not active.is_open || has_chunk m.index active.received
      then pure active
      else (do r ← attempt (write_file_at active.path m.offset m.payload); chunk_written active m r)

  -- `handleChunk`
  unfoldable pub handle_chunk : ActiveTransfer → Headers → List ℕ → M ActiveTransfer
  unfolding read_chunk chunk_read
  handle_chunk active headers payload = do
    env ← get_env
    chunk_read active (read_chunk env.sha256 headers payload)
