-- ===== src/Transfer/Sender.antt =====
-- internal/infrastructure/transfer/transfer.go: the chunks of a file and the messages that carry
-- them. internal/infrastructure/nats: the subjects, and how a message is published.
use update_service.Base.{
  ℕ, ◌+◌, ◌*◌, ◌/◌, String, List, [], ◌∷◌, cat, str_eq, if◌then◌else◌, decimal, length, take, drop,
}
use update_service.Domain.Json.{Json}
use update_service.Effect.{json, ok, M, ◌>>◌, call}

-- `ChunkHeaderSize`
abbrev pub chunk_size : ℕ
chunk_size = 65536

-- `(fileSize + int64(chunkSize) - 1) / int64(chunkSize)`
unfoldable pub total_chunks : ℕ → ℕ
total_chunks file_size = (file_size + 65535) / 65536

-- What the loop reads for an index: the file is read from its start, a full buffer at a time.
abbrev pub chunk_payload : List ℕ → ℕ → List ℕ
chunk_payload file index = take chunk_size (drop (index * 65536) file)

-- `fmt.Sprintf("%s:%d", transferID, chunkIdx)`
abbrev pub chunk_id : String → ℕ → String
chunk_id transfer_id index = cat transfer_id (cat ":" (decimal index))

abbrev pub Headers : Type 0
Headers = List (String × String)

-- `Get`: the empty text for a key that is not there.
abbrev pub header : String → Headers → String
header key [] = ""
header key (h ∷ hs) = if str_eq key h.0 then h.1 else header key hs

-- The headers of a chunk. The deadline's text is that of time.Format.
unfoldable pub chunk_headers :
    (List ℕ → String) → String → String → String → String → String → List ℕ → ℕ → Headers
chunk_headers sha256 operation_id transfer_id target file_sha256 deadline file index =
    ("Nats-Msg-Id", chunk_id transfer_id index)
    ∷ ("X-Schema-Version", "1")
    ∷ ("X-Message-Type", "chunk")
    ∷ ("X-Operation-Id", operation_id)
    ∷ ("X-Correlation-Id", operation_id)
    ∷ ("X-Transfer-Id", transfer_id)
    ∷ ("X-Chunk-Id", chunk_id transfer_id index)
    ∷ ("X-Chunk-Index", decimal index)
    ∷ ("X-Offset", decimal (index * 65536))
    ∷ ("X-Payload-Length", decimal (length (chunk_payload file index)))
    ∷ ("X-Chunk-Size", decimal chunk_size)
    ∷ ("X-Total-Bytes", decimal (length file))
    ∷ ("X-Total-Chunks", decimal (total_chunks (length file)))
    ∷ ("X-Chunk-SHA256", sha256 (chunk_payload file index))
    ∷ ("X-File-SHA256", file_sha256)
    ∷ ("X-Source-Node-Id", "self")
    ∷ ("X-Destination-Node-Id", target)
    ∷ ("X-Chunk-Deadline-At", deadline)
    ∷ ("X-Transfer-Deadline-At", deadline)
    ∷ []

-- `PublishEvent`
unfoldable pub publish_event : Json → M (Unit {0})
unfolding call
publish_event event = do
  call
  λ _ w. ok tt (record w {
    published =
        (record { subject = "control.events"; headers = []; content = json event }) ∷ w.published;
  })
