-- ===== src/Repositories/Jobs.antt =====
-- internal/infrastructure/mariadb/repositories/job_repository.go.
use update_service.Base.{
  ℕ, suc, String, Bool, true, false, not, ◌&&◌, ◌||◌, Option, none, some, List, ◌∷◌, ◌==◌, is_some,
  if◌then◌else◌, str_eq, find_key, select_where, update_where, order_by, greatest, take,
}
use update_service.Domain.Job.{Job, JobStatus, job_created, job_assigned, JobError}
use update_service.Effect.{
  external, row_not_found, M, ◌>>=◌, ◌>>◌, pure, throw, guard, get_world, modify_db, call, in_tx,
}
use update_service.Repositories.Operations.{null_if_empty, text}

-- What is read back of an error: one with neither a code nor a message is lost.
abbrev pub stored_error : Option JobError → Option JobError
stored_error none = none
stored_error (some x) =
    if is_some (null_if_empty x.code) || is_some (null_if_empty x.message)
    then some (record {
      code = text (null_if_empty x.code);
      message = text (null_if_empty x.message);
      details = x.details;
    })
    else none

-- The row that `JobRepository.Create` inserts: the INSERT names eight columns, and the others
-- keep their default, NULL.
unfoldable pub inserted_job : Job → Job
inserted_job j = record j {
  dispatched_at = none;
  acknowledged_at = none;
  completed_at = none;
  error = none;
}

unfoldable pub create : Job → M (Unit {0})
unfolding in_tx call
create j = in_tx (do
  call
  w ← get_world
  guard (not (is_some (find_key Job.id j.id w.db.jobs))) external
  modify_db (λ db. record db { jobs = inserted_job j ∷ db.jobs }))

abbrev pub or_not_found : {A : Type 0} → Option A → M A
or_not_found none = throw row_not_found
or_not_found (some a) = pure a

-- `GetByID`: `ports.ErrOperationNotFound` for a missing row.
unfoldable pub get_by_id : String → M Job
unfolding call
get_by_id id = do call; w ← get_world; or_not_found (find_key Job.id id w.db.jobs)

-- `GetByOperationID`: the job that was assigned last, nil if there is none.
unfoldable pub get_by_operation_id : String → M (Option Job)
unfolding call
get_by_operation_id operation_id = do
  call
  w ← get_world
  pure (greatest Job.assigned_at (select_where (λ j. str_eq j.operation_id operation_id) w.db.jobs))

unfoldable pub updated_job : Job → Job → Job
updated_job j row = record row {
  status = j.status;
  worker_node_id = j.worker_node_id;
  processor = j.processor;
  requirements = j.requirements;
  dispatched_at = j.dispatched_at;
  acknowledged_at = j.acknowledged_at;
  completed_at = j.completed_at;
  error = stored_error j.error;
  version = suc j.version;
}

-- `Update`: the stored version must be that of the record, and becomes the next one. The record
-- itself keeps its version.
unfoldable pub update : Job → M (Unit {0})
unfolding call
update j = do
  call
  modify_db (λ db. record db {
    jobs =
        update_where (λ row. str_eq row.id j.id && (row.version == j.version)) (updated_job j)
          db.jobs;
  })

abbrev pub is_pending : JobStatus → Bool
is_pending job_created = true
is_pending job_assigned = true
is_pending _ = false

-- `ListPendingForScheduler`
unfoldable pub list_pending_for_scheduler : ℕ → M (List Job)
unfolding call
list_pending_for_scheduler limit = do
  call
  w ← get_world
  pure (take limit (order_by Job.assigned_at (select_where (λ j. is_pending j.status) w.db.jobs)))
