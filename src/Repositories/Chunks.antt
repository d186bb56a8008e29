-- ===== src/Repositories/Chunks.antt =====
-- internal/infrastructure/mariadb/repositories/chunk_repository.go
pub mod Again
use update_service.Base.{
  ℕ, suc, String, Bool, ◌&&◌, ◌||◌, List, [], ◌∷◌, ◌==◌, if◌then◌else◌, str_eq, select_where,
  count_where, order_by,
}
use update_service.Domain.Job.{FileChunk}
use update_service.Effect.{M, ◌>>=◌, ◌>>◌, pure, get_world, modify_db, call}

-- A row with the same id, or the same transfer and index: the two unique keys.
abbrev pub is_duplicate : FileChunk → FileChunk → Bool
is_duplicate c row =
    str_eq row.id c.id
    || (str_eq row.transfer_id c.transfer_id && (row.chunk_index == c.chunk_index))

-- `ON DUPLICATE KEY UPDATE`: the id, the index, the offset and the time of receipt stay.
unfoldable pub merged_chunk : FileChunk → FileChunk → FileChunk
merged_chunk c row = record row {
  chunk_size = c.chunk_size;
  checksum = c.checksum;
  publish_state = c.publish_state;
  ack_state = c.ack_state;
  acknowledged_at = c.acknowledged_at;
  version = suc row.version;
}

unfoldable pub upserted : FileChunk → List FileChunk → List FileChunk
upserted c [] = c ∷ []
upserted c (row ∷ rows) =
    if is_duplicate c row then merged_chunk c row ∷ rows else row ∷ upserted c rows

-- `Upsert`
unfoldable pub upsert : FileChunk → M (Unit {0})
unfolding call
upsert c = do call; modify_db (λ db. record db { chunks = upserted c db.chunks })

-- `GetByTransferID`
unfoldable pub get_by_transfer_id : String → M (List FileChunk)
unfolding call
get_by_transfer_id transfer_id = do
  call
  w ← get_world
  pure (
      order_by FileChunk.chunk_index
        (select_where (λ c. str_eq c.transfer_id transfer_id) w.db.chunks))

abbrev pub is_received : String → FileChunk → Bool
is_received transfer_id c = str_eq c.transfer_id transfer_id && str_eq c.ack_state "received"

-- `CountReceived`
unfoldable pub count_received : String → M ℕ
unfolding call
count_received transfer_id = do
  call
  w ← get_world
  pure (count_where (is_received transfer_id) w.db.chunks)
