-- ===== src/Transfer/Accept.antt =====
-- internal/infrastructure/transfer/receiver.go: `AcceptTransfer`. The deadline that it reads is used
-- for nothing, and the handler that it subscribes is `handle_chunk`.
use update_service.Base.{
  ℕ, String, true, none, some, [], ◌∷◌, if◌then◌else◌, ◌==◌, ltb, str_eq, cat,
}
use update_service.Domain.Json.{Fields, member, as_string, as_number}
use update_service.Domain.Job.{FileTransfer, transfer_accepted}
use update_service.Effect.{World, bytes, failure, M, ◌>>=◌, ◌>>◌, pure, guard, modify, call, now}
use update_service.Repositories.Transfers
use update_service.Transfer.Bytes.{bytes_at, truncate}
use update_service.Transfer.Active.{ActiveTransfer, content_of}
use update_service.Transfer.Receiver.{finalize}

-- `filepath.Join` of two clean parts: an empty one is left out.
abbrev pub join : String → String → String
join a b = if str_eq a "" then b else if str_eq b "" then a else cat a (cat "/" b)

-- `os.OpenFile` with O_CREATE: a file that is there keeps its bytes.
abbrev pub created_file : String → World → World
created_file path w = elim (bytes_at path w.files) [
  | none ↦ record w { files = (path, bytes []) ∷ w.files }
  | some content ↦ w
]

unfoldable pub open_file : String → M (Unit {0})
unfolding call
open_file path = do call; modify (created_file path)

-- `f.Truncate`
unfoldable pub truncate_file : String → ℕ → M (Unit {0})
unfolding call
truncate_file path size = do
  call
  modify (λ w. record w { files = (path, bytes (truncate size (content_of path w))) ∷ w.files })

-- `Subscribe`: the consumer is created, and then it consumes.
unfoldable pub subscribe : M (Unit {0})
unfolding call
subscribe = do call; call

unfoldable pub accepted : FileTransfer → ℕ → FileTransfer
accepted t at = record t { status = transfer_accepted; accepted_at = some at }

-- `TransferReceiver`: its node and its directory.
module _ (node_id staging_dir : String) where
  -- `filepath.Join(r.stagingDir, operationID, transferIDStr)`
  abbrev pub staging_path : Fields → String
  staging_path cmd =
      join (join staging_dir (as_string (member "operation_id" cmd)))
        (as_string (member "transfer_id" cmd))

  unfoldable pub new_active : Fields → FileTransfer → ActiveTransfer
  new_active cmd t = record {
    transfer = t;
    total_chunks = as_number (member "total_chunks" cmd);
    total_bytes = as_number (member "file_size_bytes" cmd);
    file_sha256 = as_string (member "file_sha256" cmd);
    received = [];
    received_size = 0;
    path = cat (staging_path cmd) "/final";
    is_open = true;
    manifest_path = cat (staging_path cmd) "/manifest.json";
  }

  -- The staging file: its directory, itself, and its length if that is not zero.
  unfoldable pub prepare_file : Fields → M (Unit {0})
  unfolding call open_file truncate_file
  prepare_file cmd = do
    call
    open_file (cat (staging_path cmd) "/final")
    (if ltb 0 (as_number (member "file_size_bytes" cmd))
        then truncate_file (cat (staging_path cmd) "/final")
            (as_number (member "file_size_bytes" cmd))
        else pure tt)

  -- A transfer without chunks is finalised at once, and an error of that is logged.
  unfoldable pub start_active : String → ActiveTransfer → M ActiveTransfer
  unfolding finalize
  start_active transfer_id active =
      if active.total_chunks == 0
      then (do done ← finalize node_id active transfer_id; pure done.active)
      else pure active

  -- `AcceptTransfer`
  unfoldable pub accept_transfer : Fields → M ActiveTransfer
  unfolding prepare_file now accepted new_active subscribe start_active
  accept_transfer cmd = do
    transfer ← Transfers.get_by_id (as_string (member "transfer_id" cmd))
    guard (str_eq transfer.destination_node_id node_id) (failure "transfer destination mismatch")
    prepare_file cmd
    at ← now
    Transfers.update (accepted transfer at)
    subscribe
    start_active (as_string (member "transfer_id" cmd)) (new_active cmd (accepted transfer at))
