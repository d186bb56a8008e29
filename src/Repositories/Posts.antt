-- ===== src/Repositories/Posts.antt =====
-- internal/infrastructure/mariadb/repositories: what each method that the use cases call leaves
-- behind, on return and on error.
use update_service.Base.{ℕ, ◌≡◌, ◌⊎◌, String, ◌∷◌, arith, find_key}
use update_service.Domain.Json.{Json}
use update_service.Domain.Operation.{Operation}
use update_service.Domain.Job.{Job, JobAttempt, FileTransfer, FileChunk}
use update_service.Domain.Event.{OperationEvent}
use update_service.Effect.{external, Env, World}
use update_service.Effect.Post.{Post}
use update_service.Effect.Tables.{Db, OperationRow, OperationResult}
use update_service.Repositories.Operations
use update_service.Repositories.Operations.{created_row, scanned}
use update_service.Repositories.Operations.Locking.{rows_after}
use update_service.Repositories.Jobs
use update_service.Repositories.Attempts
use update_service.Repositories.Transfers
use update_service.Repositories.Chunks
use update_service.Repositories.Idempotency
use update_service.Repositories.Events

-- The tables of `w'` are `db`; the files and the messages are those of `w`.
abbrev pub Only : World → Db → World → Type 0
Only w db w' = (w'.db ≡ db) × (w'.files ≡ w.files) × (w'.published ≡ w.published)

module _ (e : Env) (w : World) where
  pub operations-create :
      (op : Operation)
      → Post
          (Operations.create op e w)
          (λ _ w'. Only w (record w.db { operations = created_row op ∷ w.db.operations }) w')
          (λ _ w'. Only w w.db w')
  unfolding Operations.create
  operations-create op = ground arith

  pub operations-get_by_id :
      (id : String)
      → Post
          (Operations.get_by_id id e w)
          (λ o w'. (o ≡ scanned (find_key OperationRow.id id w.db.operations)) × Only w w.db w')
          (λ _ w'. Only w w.db w')
  unfolding Operations.get_by_id
  operations-get_by_id id = ground arith

  -- An error may come before the statement or after it.
  pub operations-update :
      (op : Operation)
      → Post
          (Operations.update op e w)
          (λ _ w'. Only w (record w.db { operations = rows_after op w.db.operations }) w')
          (λ x w'.
            (x ≡ external)
            × (Only w w.db w'
                ⊎ Only w (record w.db { operations = rows_after op w.db.operations }) w'))
  unfolding Operations.update
  operations-update op = ground arith

  pub jobs-create :
      (j : Job)
      → Post
          (Jobs.create j e w)
          (λ _ w'. Only w (record w.db { jobs = Jobs.inserted_job j ∷ w.db.jobs }) w')
          (λ _ w'. Only w w.db w')
  unfolding Jobs.create
  jobs-create j = ground arith

  pub attempts-create :
      (a : JobAttempt)
      → Post
          (Attempts.create a e w)
          (λ _ w'.
            Only w (record w.db { attempts = Attempts.inserted_attempt a ∷ w.db.attempts }) w')
          (λ _ w'. Only w w.db w')
  unfolding Attempts.create
  attempts-create a = ground arith

  pub transfers-create :
      (t : FileTransfer)
      → Post
          (Transfers.create t e w)
          (λ _ w'.
            Only w (record w.db { transfers = Transfers.inserted_transfer t ∷ w.db.transfers }) w')
          (λ _ w'. Only w w.db w')
  unfolding Transfers.create
  transfers-create t = ground arith

  pub chunks-upsert :
      (c : FileChunk)
      → Post
          (Chunks.upsert c e w)
          (λ _ w'. Only w (record w.db { chunks = Chunks.upserted c w.db.chunks }) w')
          (λ _ w'. Only w w.db w')
  unfolding Chunks.upsert
  chunks-upsert c = ground arith

  pub events-append :
      (evt : OperationEvent)
      → Post
          (Events.append evt e w)
          (λ _ w'. Only w (record w.db { events = evt ∷ w.db.events }) w')
          (λ _ w'. Only w w.db w')
  unfolding Events.append
  events-append evt = ground arith

  pub idempotency-get :
      (key method path : String)
      → Post (Idempotency.get key method path e w) (λ _ _. ⊥) (λ _ w'. Only w w.db w')
  unfolding Idempotency.get
  idempotency-get key method path = ground arith

  pub idempotency-store :
      (key method path fingerprint : String) (response : Json) (expires_at : ℕ)
      → Post
          (Idempotency.store key method path fingerprint response expires_at e w)
          (λ _ _. ⊥)
          (λ _ w'. Only w w.db w')
  unfolding Idempotency.store
  idempotency-store key method path fingerprint response expires_at = ground arith

  pub results-get :
      (operation_id : String)
      → Post
          (Events.get_result_by_operation_id operation_id e w)
          (λ o w'.
            (o ≡ find_key OperationResult.operation_id operation_id w.db.results) × Only w w.db w')
          (λ _ w'. Only w w.db w')
  unfolding Events.get_result_by_operation_id
  results-get operation_id = ground arith
