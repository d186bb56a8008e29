-- ===== src/Tests/Worlds.antt =====
-- An operation, its row, a world that holds it, and two environments.
use update_service.Base.{◌∷◌, [], refl, none, some, true, false}
use update_service.Domain.Operation.{
  Operation, InputFile, created, waiting_for_upload, queued, stage_queued, failed, stage_failed,
}
use update_service.Domain.Node.{Node, healthy}
use update_service.Domain.Job.{FileChunk, FileTransfer, transfer_created}
use update_service.Effect.{Env, World, IsReliable}
use update_service.Effect.Tables.{Db, OperationRow, empty}

abbrev pub input_file : InputFile
input_file = record { size_bytes = 70000; sha256 = "ab12"; file_name = "update.bin" }

abbrev pub failed_row : OperationRow
failed_row = record {
  id = "op-1";
  status = failed;
  stage = stage_failed;
  processor = "firmware";
  retry_count = 1;
  max_attempts = 3;
  client_reference = "ref-7";
  created_at = 10;
  updated_at = 20;
  deadline = none;
  input_file_size = some 70000;
  input_file_sha256 = some "ab12";
  input_file_name = some "update.bin";
  current_job_id = some "job-1";
  current_attempt_id = some "attempt-1";
  current_transfer_id = none;
  cancel_requested_at = none;
  error_code = some "PROCESSING_FAILED";
  error_message = some "no space left";
  error_details = none;
  version = 4;
}

-- The next version of the operation in `failed_row`.
abbrev pub next_operation : Operation
next_operation = record {
  id = "op-1";
  status = queued;
  stage = stage_queued;
  processor = "firmware";
  retry_count = 2;
  max_attempts = 3;
  client_reference = "ref-7";
  created_at = 10;
  updated_at = 30;
  deadline = none;
  input_file = some input_file;
  current_job_id = none;
  current_attempt_id = none;
  current_transfer_id = none;
  cancel_requested_at = none;
  error = some (record { code = "PROCESSING_FAILED"; message = "no space left"; details = none });
  version = 5;
}

abbrev pub transfer : FileTransfer
transfer = record {
  id = "transfer-1";
  attempt_id = "attempt-1";
  operation_id = "op-1";
  file_id = "file-1";
  source_node_id = "self";
  destination_node_id = "node-b";
  file_size_bytes = 70000;
  chunk_size_bytes = 65536;
  total_chunks = 2;
  file_checksum = "ab12";
  checksum_algorithm = "sha256";
  status = transfer_created;
  staging_path = "/var/staging/op-1";
  staging_reservation_id = none;
  deadline_at = 900;
  accepted_at = none;
  completed_at = none;
  received_chunks = 0;
  error = none;
  version = 1;
}

abbrev pub tables : Db
tables = record empty { operations = failed_row ∷ []; transfers = transfer ∷ [] }

abbrev pub world : World
world = record { calls = 0; db = tables; files = []; published = []; indexed = [] }

-- Every call succeeds, and the clock shows the number of the call.
abbrev pub reliable : Env
reliable = record {
  fails = λ _. false;
  clock = λ n. n;
  random = λ _. "00ff";
  sha256 = λ _. "ab12";
  render = λ _. "{}";
  rfc3339 = λ _. "2025-01-01T00:00:00Z";
}

-- What is drawn has 32 digits.
abbrev pub drawing : Env
drawing = record reliable { random = λ _. "00112233445566778899aabbccddeeff" }

-- Every call fails.
abbrev pub broken : Env
broken = record reliable { fails = λ _. true }

pub reliable-IsReliable : IsReliable reliable
reliable-IsReliable n = refl

-- An operation that waits for its file.
abbrev pub fresh_row : OperationRow
fresh_row = record failed_row {
  id = "op-2";
  status = created;
  stage = waiting_for_upload;
  retry_count = 0;
  input_file_size = none;
  input_file_sha256 = none;
  input_file_name = none;
  current_job_id = none;
  current_attempt_id = none;
  error_code = none;
  error_message = none;
  version = 1;
}

abbrev pub waiting_world : World
waiting_world = record world { db = record tables { operations = fresh_row ∷ failed_row ∷ [] } }

abbrev pub node : Node
node = record {
  id = "node-b";
  incarnation_id = "i-1";
  incarnation_started_at = 1;
  status = healthy;
  roles = "worker" ∷ [];
  heartbeat_sequence = 4;
  last_heartbeat_at = some 8;
  heartbeat_deadline_at = some 20;
  active_job_count = 0;
  active_transfer_count = 0;
  max_concurrent_jobs = none;
  disk_free_bytes = none;
  disk_total_bytes = none;
  cpu_sample = none;
  memory_sample = none;
  self_checks = none;
  draining = false;
  shutdown_deadline_at = none;
  registered_at = 1;
  updated_at = 8;
}

abbrev pub chunk : FileChunk
chunk = record {
  id = "transfer-1:0";
  transfer_id = "transfer-1";
  chunk_index = 0;
  chunk_offset = 0;
  chunk_size = 65536;
  checksum = "ab12";
  publish_state = "published";
  ack_state = "pending";
  received_at = none;
  acknowledged_at = none;
  version = 1;
}
