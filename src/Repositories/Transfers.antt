-- ===== src/Repositories/Transfers.antt =====
-- internal/infrastructure/mariadb/repositories/transfer_repository.go
pub mod Locking
use update_service.Base.{
  ℕ, suc, ◌≡◌, ◌<◌, String, Bool, true, false, not, ◌&&◌, ◌||◌, Option, none, some, List, [], ◌∷◌,
  ◌==◌, ltb, is_some, if◌then◌else◌, str_eq, find_where, find_key, select_where, count_where,
  update_where, delete_where, order_by, greatest, take,
}
use update_service.Domain.Job.{FileTransfer}
use update_service.Effect.{
  Error, external, row_not_found, M, ◌>>=◌, ◌>>◌, pure, throw, guard, get_world, get_env, modify_db,
  call, now, in_tx,
}
use update_service.Repositories.Jobs.{stored_error, or_not_found}

-- The row that `Create` inserts: no acceptance, no completion and no error.
unfoldable pub inserted_transfer : FileTransfer → FileTransfer
inserted_transfer t = record t { accepted_at = none; completed_at = none; error = none }

unfoldable pub create : FileTransfer → M (Unit {0})
unfolding in_tx call
create t = in_tx (do
  call
  w ← get_world
  guard (not (is_some (find_key FileTransfer.id t.id w.db.transfers))) external
  modify_db (λ db. record db { transfers = inserted_transfer t ∷ db.transfers }))

unfoldable pub get_by_id : String → M FileTransfer
unfolding call
get_by_id id = do call; w ← get_world; or_not_found (find_key FileTransfer.id id w.db.transfers)

-- `GetByAttemptID`: `LIMIT 1`, nil if there is none.
unfoldable pub get_by_attempt_id : String → M (Option FileTransfer)
unfolding call
get_by_attempt_id attempt_id = do
  call
  w ← get_world
  pure (find_where (λ t. str_eq t.attempt_id attempt_id) w.db.transfers)

unfoldable pub updated_transfer : FileTransfer → FileTransfer → FileTransfer
updated_transfer t row = record row {
  status = t.status;
  accepted_at = t.accepted_at;
  completed_at = t.completed_at;
  received_chunks = t.received_chunks;
  error = stored_error t.error;
  version = suc t.version;
}

-- `WHERE id = ? AND version = ?`
abbrev pub is_same_version : FileTransfer → FileTransfer → Bool
is_same_version t row = str_eq row.id t.id && (row.version == t.version)

-- `Update`: the stored version must be that of the record, and becomes the next one. The record
-- itself keeps its version, and an update that affects no row returns nil.
unfoldable pub update : FileTransfer → M (Unit {0})
unfolding call
update t = do
  call
  modify_db (λ db. record db {
    transfers = update_where (is_same_version t) (updated_transfer t) db.transfers;
  })
