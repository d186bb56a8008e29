-- ===== src/Transfer/Active.antt =====
-- internal/infrastructure/transfer/receiver.go: a transfer that is being received, and what a chunk's
-- message says. A header that `Sscanf` reads starts with a digit, as `%d` prints it.
use update_service.Base.{
  ℕ, ◌+◌, String, Bool, not, Option, none, some, List, [], ◌∷◌, is_some, if◌then◌else◌, ◌==◌,
  str_eq, find_where, length, scan_decimal,
}
use update_service.Domain.Job.{FileTransfer, FileChunk}
use update_service.Effect.{World, bytes, M, ok, ◌>>◌, call}
use update_service.Transfer.Bytes.{bytes_at, write_at}
use update_service.Transfer.Sender.{Headers, header, chunk_id}

-- `ActiveTransfer`: the map of the received chunks is a list of them, and `file` is its path and
-- whether it is open.
pub record ActiveTransfer : Type 0 where
  pub transfer : FileTransfer
  pub total_chunks : ℕ
  pub total_bytes : ℕ
  pub file_sha256 : String
  pub received : List FileChunk
  pub received_size : ℕ
  pub path : String
  pub is_open : Bool
  pub manifest_path : String

-- What a message says, if it has an index and its payload is as long as it says and has the digest
-- that it names.
pub record ChunkMessage : Type 0 where
  pub index : ℕ
  pub offset : ℕ
  pub payload : List ℕ
  pub checksum : String
  pub transfer_id : String

abbrev scanned_or_zero : Option ℕ → ℕ
scanned_or_zero none = 0
scanned_or_zero (some n) = n

abbrev pub checked : (List ℕ → String) → Headers → List ℕ → Option ℕ → Option ChunkMessage
checked sha256 headers payload none = none
checked sha256 headers payload (some index) =
    if not (length payload == scanned_or_zero (scan_decimal (header "X-Payload-Length" headers)))
    then none
    else if not (str_eq (sha256 payload) (header "X-Chunk-SHA256" headers))
    then none
    else some (record {
      index = index;
      offset = scanned_or_zero (scan_decimal (header "X-Offset" headers));
      payload = payload;
      checksum = header "X-Chunk-SHA256" headers;
      transfer_id = header "X-Transfer-Id" headers;
    })

unfoldable pub read_chunk : (List ℕ → String) → Headers → List ℕ → Option ChunkMessage
read_chunk sha256 headers payload =
    checked sha256 headers payload (scan_decimal (header "X-Chunk-Index" headers))

-- `active.received[chunkIndex]`
abbrev pub has_chunk : ℕ → List FileChunk → Bool
has_chunk index received = is_some (find_where (λ (c : FileChunk). c.chunk_index == index) received)

abbrev pub stored_chunk : ChunkMessage → FileChunk
stored_chunk m = record {
  id = chunk_id m.transfer_id m.index;
  transfer_id = m.transfer_id;
  chunk_index = m.index;
  chunk_offset = m.offset;
  chunk_size = length m.payload;
  checksum = m.checksum;
  publish_state = "received";
  ack_state = "acknowledged";
  received_at = none;
  acknowledged_at = none;
  version = 1;
}

abbrev pub with_chunk : ActiveTransfer → ChunkMessage → ActiveTransfer
with_chunk active m = record active {
  received = stored_chunk m ∷ active.received;
  received_size = active.received_size + length m.payload;
}

abbrev pub or_empty : Option (List ℕ) → List ℕ
or_empty none = []
or_empty (some b) = b

-- The bytes of a file; one that is not there is empty.
abbrev pub content_of : String → World → List ℕ
content_of path w = or_empty (bytes_at path w.files)

-- `active.file.WriteAt`
unfoldable pub write_file_at : String → ℕ → List ℕ → M (Unit {0})
unfolding call
write_file_at path offset payload = do
  call
  λ _ w.
      ok tt
        (record w { files = (path, bytes (write_at offset payload (content_of path w))) ∷ w.files })
