-- ===== src/UseCases/Upload.antt =====
-- internal/application/operations/file.go. The temporary file, which a deferred call removes again
-- on every path, is not kept in the world, and the dispatch that a success starts in the background
-- is not part of the call. Paths are joined as filepath.Join joins clean parts.
pub mod Staged
pub mod Outcome
use update_service.Base.{
  ℕ, true, suc, ◌+◌, String, Bool, ◌&&◌, not, Option, none, some, List, ◌∷◌, ltb, if◌then◌else◌,
  str_eq, cat, hex_number, length, take,
}
use update_service.Domain.Json.{num, str, end, field}
use update_service.Domain.Operation.{
  Operation, OperationStatus, OperationStage, InputFile, created, queued, stage_queued, same_status,
}
use update_service.Domain.Event.{OperationEvent, operation_queued}
use update_service.Effect.{
  Error, operation_not_found, invalid_state, failure, Env, World, bytes, ok, M, ◌>>=◌, ◌>>◌, pure,
  throw, guard, get_env, call, now, ignore_error,
}
use update_service.Repositories.Operations
use update_service.Repositories.Events
use update_service.UseCases.Create.{status_url}
use update_service.Transfer.Sender.{Headers, header}

pub record FileOperationInput : Type 0 where
  pub operation_id : String
  pub body : List ℕ
  pub headers : Headers

pub record FileOperationOutput : Type 0 where
  pub operation_id : String
  pub status : OperationStatus
  pub stage : OperationStage
  pub input_file : Option InputFile
  pub status_url : String
  pub result_url : String
  pub updated_at : ℕ
  pub version : ℕ

-- The operation as `Execute` writes it.
unfoldable pub uploaded : Operation → List ℕ → String → String → ℕ → Operation
uploaded op content sha256 file_name at = record op {
  input_file =
      some (record { size_bytes = length content; sha256 = sha256; file_name = file_name });
  status = queued;
  stage = stage_queued;
  updated_at = at;
  version = suc op.version;
}

unfoldable pub queued_event : Operation → ℕ → String → ℕ → ℕ → OperationEvent
queued_event op size sha256 id_time at = record {
  id = cat "evt-" (hex_number id_time);
  operation_id = op.id;
  event_type = operation_queued;
  job_id = none;
  attempt_id = none;
  transfer_id = none;
  payload = field "file_size" (num size) (field "sha256" (str sha256) end);
  correlation_id = op.id;
  issued_at = at;
  actor_node_id = "self";
  version = op.version;
}

-- Whether a digest that the client gives is the one of the content.
abbrev pub digest_fits : String → String → Bool
digest_fits digest sha256 = if str_eq digest "" then true else str_eq digest (cat "SHA-256=" sha256)

-- `os.Rename` of the temporary file, whose bytes are at hand.
unfoldable pub move_file : String → List ℕ → M (Unit {0})
unfolding call
move_file path content = do
  call
  λ _ w. ok tt (record w { files = (path, bytes content) ∷ w.files })

-- `FileOperationUseCase`: its directory, its limit and its address.
module _ (staging_dir : String) (max_file_size : ℕ) (base_url : String) where
  abbrev pub input_path : String → String
  input_path id = cat staging_dir (cat "/" (cat id "/input"))

  -- The part of `Execute` behind the checks of the content.
  unfoldable pub stage_file :
      FileOperationInput → Operation → List ℕ → String → M FileOperationOutput
  unfolding now ignore_error
  stage_file input loaded content sha256 = do
    move_file (input_path input.operation_id) content
    at ← now
    let op = uploaded loaded content sha256 (header "X-File-Name" input.headers) at
    Operations.update op
    id_time ← now
    ignore_error (Events.append (queued_event op (length content) sha256 id_time at))
    pure (record {
      operation_id = op.id;
      status = op.status;
      stage = op.stage;
      input_file = op.input_file;
      status_url = status_url base_url op.id;
      result_url = cat (status_url base_url op.id) "/result";
      updated_at = op.updated_at;
      version = op.version;
    })

  -- The body is read up to one byte more than the limit.
  unfoldable pub receive_file : FileOperationInput → Operation → M FileOperationOutput
  unfolding call stage_file
  receive_file input loaded = do
    call
    call
    call
    let content = take (max_file_size + 1) input.body
    guard (not (ltb max_file_size (length content))) (failure "file size exceeds limit")
    env ← get_env
    guard (digest_fits (header "Digest" input.headers) (env.sha256 content))
        (failure "digest mismatch")
    stage_file input loaded content (env.sha256 content)

  unfoldable pub upload_loaded : FileOperationInput → Option Operation → M FileOperationOutput
  unfolding receive_file
  upload_loaded input none = throw operation_not_found
  upload_loaded input (some op) =
      if not (same_status op.status created) then throw invalid_state else receive_file input op

  -- `FileOperationUseCase.Execute`
  unfoldable pub execute : FileOperationInput → M FileOperationOutput
  unfolding upload_loaded
  execute input = do op ← Operations.get_by_id input.operation_id; upload_loaded input op
