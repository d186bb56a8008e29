-- ===== src/Repositories/Attempts.antt =====
-- internal/infrastructure/mariadb/repositories/attempt_repository.go
use update_service.Base.{
  suc, String, Bool, true, false, not, ◌&&◌, ◌||◌, Option, ◌∷◌, ◌==◌, is_some, str_eq, find_where,
  find_key, select_where, update_where, greatest,
}
use update_service.Domain.Job.{
  JobAttempt, AttemptStatus, attempt_succeeded, attempt_failed, attempt_cancelled,
}
use update_service.Effect.{external, M, ◌>>=◌, ◌>>◌, pure, guard, get_world, modify_db, call, in_tx}
use update_service.Repositories.Jobs.{stored_error, or_not_found}

unfoldable pub inserted_attempt : JobAttempt → JobAttempt
inserted_attempt a = record a { error = stored_error a.error }

-- `Create`: the id and the command id are unique.
unfoldable pub create : JobAttempt → M (Unit {0})
unfolding in_tx call
create a = in_tx (do
  call
  w ← get_world
  guard
      (not (
        is_some (
          find_where (λ row. str_eq row.id a.id || str_eq row.command_id a.command_id)
            w.db.attempts)))
      external
  modify_db (λ db. record db { attempts = inserted_attempt a ∷ db.attempts }))

unfoldable pub get_by_id : String → M JobAttempt
unfolding call
get_by_id id = do call; w ← get_world; or_not_found (find_key JobAttempt.id id w.db.attempts)

-- The statuses of `NOT IN (?, ?, ?)`.
abbrev pub is_closed : AttemptStatus → Bool
is_closed attempt_succeeded = true
is_closed attempt_failed = true
is_closed attempt_cancelled = true
is_closed _ = false

-- `GetActiveByJobID`: the open attempt with the greatest number.
unfoldable pub get_active_by_job_id : String → M (Option JobAttempt)
unfolding call
get_active_by_job_id job_id = do
  call
  w ← get_world
  pure (
      greatest JobAttempt.attempt_number
        (select_where (λ a. str_eq a.job_id job_id && not (is_closed a.status)) w.db.attempts))

unfoldable pub updated_attempt : JobAttempt → JobAttempt → JobAttempt
updated_attempt a row = record row {
  status = a.status;
  processing_id = a.processing_id;
  error = stored_error a.error;
  started_at = a.started_at;
  completed_at = a.completed_at;
  version = suc a.version;
}

unfoldable pub update : JobAttempt → M (Unit {0})
unfolding call
update a = do
  call
  modify_db (λ db. record db {
    attempts =
        update_where (λ row. str_eq row.id a.id && (row.version == a.version)) (updated_attempt a)
          db.attempts;
  })
