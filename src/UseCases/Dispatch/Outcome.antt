-- ===== src/UseCases/Dispatch/Outcome.antt =====
-- dispatch.go: what a dispatch has made of its operation when it returns, and when it fails.
use text.Mathlib.TextLemmas.{nil-append, cons-append}
use update_service.Base.{
  ap, ℕ, zero, suc, ◌≤◌, ◌≡◌, ◌∙◌, ◌⊎◌, inl, inr, subst, sym, refl, Bool-cases, String, none, some,
  ◌∷◌, arith, cat, find_key-key,
}
use update_service.Domain.Job.{Job, FileTransfer, job_dispatched}
use update_service.Domain.Node.{Node}
use update_service.Domain.Operation.{Operation, InputFile, dispatched}
use update_service.Effect.{Error, Env, World, ok, now, counted}
use update_service.Effect.Tables.{OperationRow}
use update_service.Effect.Post.{Post, Post-after, Post-mono}
use update_service.Repositories.Operations
use update_service.Repositories.Operations.{row_to_operation, updated_row}
use update_service.Repositories.Operations.Locking.{own_id, next_row, row_of, rows_after}
use update_service.Repositories.Jobs
use update_service.Repositories.Transfers
use update_service.Scheduling.{select_worker, ScheduleResult}
use update_service.Scheduling.Choice.{IsChoice, select_worker-Post}
use update_service.Transfer.Sender.{total_chunks}
use update_service.UseCases.Create.{generate_id}
use update_service.UseCases.Dispatch.{
  Plan, DispatchOperationInput, DispatchOperationOutput, cut, generate_short_id,
  dispatched_transfer, dispatched_job, dispatched_operation, make_plan, send_dispatch,
  dispatch_file, dispatch_loaded, execute,
}
use update_service.UseCases.Dispatch.Stored.{send-Post}

abbrev text_length : String → ℕ
text_length String.[] = 0
text_length (String.◌∷◌ c s) = suc (text_length s)

-- What is drawn has the 32 digits of 16 bytes.
abbrev pub HasDigits : Env → Type 0
HasDigits e = (n : ℕ) → text_length (e.random n) ≡ 32

cut-enough :
    (n : ℕ) (s : String) (e : Env) (w : World)
    → n ≤ text_length s
    → (short : String) × (cut n s e w ≡ ok short w)
cut-enough zero s e w h = (s, refl)
cut-enough (suc n) String.[] e w h = absurd (omega (arith, h))
cut-enough (suc n) (String.◌∷◌ c s) e w h = cut-enough n s e w (omega (arith, h))

cut-dash : (s : String) (e : Env) (w : World) → cut 4 (cat "" (cat "-" s)) e w ≡ cut 3 s e w
cut-dash s e w =
    ap (λ t. cut 4 t e w)
      (nil-append (cat "-" s) ∙ (cons-append "-" "" s ∙ ap (String.◌∷◌ "-") (nil-append s)))

module _ (e : Env) (digits : HasDigits e) where
  short_id :
      (prefix : String) (w : World)
      → (id : String) × (generate_short_id prefix e w ≡ ok id (counted w))
  unfolding generate_short_id generate_id
  short_id prefix w =
      let c = cut-enough 3 (e.random w.calls) e (counted w) (omega (arith, digits w.calls)) in
      (cat prefix c.0, rw (cut-dash (e.random w.calls) e (counted w) ∙ c.1) refl)

  -- A dispatch has its identifiers for the worker that was chosen.
  plan-Post :
      (base_url staging_dir : String) (worker : ScheduleResult) (w : World)
      → Post
          (make_plan base_url staging_dir worker e w)
          (λ plan w'. (plan.worker_node_id ≡ worker.node_id) × (w'.db ≡ w.db))
          (λ _ _. ⊥)
  unfolding make_plan generate_id now
  plan-Post base_url staging_dir worker w =
      let w₃ = counted (counted (counted w)) in
      rw ((short_id "cmd-" w₃).1, (short_id "claim-" (counted w₃)).1) (refl, refl)

-- The row of a dispatched operation.
abbrev pub IsDispatched : OperationRow → DispatchOperationOutput → OperationRow → Type 0
IsDispatched row out new =
    (new.id ≡ row.id)
    × (new.status ≡ dispatched)
    × (new.current_job_id ≡ some out.job_id)
    × (new.current_attempt_id ≡ some out.attempt_id)
    × (new.current_transfer_id ≡ row.current_transfer_id)
    × (new.version ≡ suc row.version)

-- The new transfer, for the file of the operation, and the new job.
abbrev pub HasTransfer : InputFile → DispatchOperationOutput → World → World → Type 0
HasTransfer file out w w' =
    (t : FileTransfer) × (w'.db.transfers ≡ t ∷ w.db.transfers)
    × (t.destination_node_id ≡ out.worker_node_id)
    × (t.file_size_bytes ≡ file.size_bytes)
    × (t.file_checksum ≡ file.sha256)
    × (t.total_chunks ≡ total_chunks file.size_bytes)

abbrev pub HasJob : DispatchOperationOutput → World → World → Type 0
HasJob out w w' =
    (j : Job) × (w'.db.jobs ≡ j ∷ w.db.jobs)
    × (j.id ≡ out.job_id)
    × (j.worker_node_id ≡ out.worker_node_id)
    × (j.status ≡ job_dispatched)
    × (j.dispatched_at ≡ none)

module _ (input : DispatchOperationInput) (row : OperationRow) (file : InputFile) (w : World) where
  abbrev pub Dispatched : DispatchOperationOutput → World → Type 0
  Dispatched out w' =
      ((n : Node) × (out.worker_node_id ≡ n.id) × IsChoice w.db.nodes n)
      × ((new : OperationRow) × (row_of input.operation_id w' ≡ some new)
          × IsDispatched row out new)
      × HasTransfer file out w w'
      × HasJob out w w'

  -- The row is as it was, or dispatched.
  abbrev pub Refused : Error → World → Type 0
  Refused x w' =
      (row_of input.operation_id w' ≡ some row)
      ⊎ ((new : OperationRow) × (row_of input.operation_id w' ≡ some new)
          × (new.status ≡ dispatched))

module _ (base_url staging_dir : String) (input : DispatchOperationInput) (row : OperationRow)
    (file : InputFile) (w : World) (found : row_of input.operation_id w ≡ some row)
    (plan : Plan) where
  abbrev op : Operation
  op = row_to_operation row

  new_row :
      (at : ℕ) (w' : World)
      → w'.db.operations ≡ rows_after (dispatched_operation op plan at) w.db.operations
      → row_of input.operation_id w' ≡ some (updated_row (dispatched_operation op plan at) row)
  unfolding dispatched_operation row_to_operation
  new_row at w' rows =
      let own = own_id input.operation_id row w.db.operations found in
      subst (λ k. row_of k w' ≡ some (updated_row (dispatched_operation op plan at) row))
        (find_key-key OperationRow.id input.operation_id w.db.operations row found)
        (rw rows
          (next_row (dispatched_operation op plan at) row w.db.operations own (ground arith)))

  new_row-status :
      (at : ℕ) → (updated_row (dispatched_operation op plan at) row).status ≡ dispatched
  unfolding dispatched_operation updated_row
  new_row-status at = refl

  new_row-IsDispatched :
      (out : DispatchOperationOutput)
      → out.job_id ≡ plan.job_id
      → out.attempt_id ≡ plan.attempt_id
      → IsDispatched row out (updated_row (dispatched_operation op plan out.updated_at) row)
  unfolding dispatched_operation updated_row row_to_operation
  new_row-IsDispatched out job attempt = (refl, refl, rw job refl, rw attempt refl, refl, refl)

  new_transfer :
      (out : DispatchOperationOutput) (w' : World)
      → w'.db.transfers
        ≡ Transfers.inserted_transfer (dispatched_transfer staging_dir op file plan)
          ∷ w.db.transfers
      → out.worker_node_id ≡ plan.worker_node_id
      → HasTransfer file out w w'
  unfolding dispatched_transfer Transfers.inserted_transfer total_chunks
  new_transfer out w' rows node = (_, rows, sym node, refl, refl, refl)

  new_job :
      (out : DispatchOperationOutput) (w' : World)
      → w'.db.jobs
        ≡ Jobs.inserted_job (dispatched_job op plan input.processor out.updated_at) ∷ w.db.jobs
      → out.worker_node_id ≡ plan.worker_node_id
      → out.job_id ≡ plan.job_id
      → HasJob out w w'
  unfolding dispatched_job Jobs.inserted_job
  new_job out w' rows node job = (_, rows, sym job, sym node, refl, refl)

  -- From the tables to the rows.
  from_tables :
      (n : Node) (e : Env) (w₁ : World)
      → plan.worker_node_id ≡ n.id
      → IsChoice w.db.nodes n
      → w₁.db ≡ w.db
      → Post
          (send_dispatch base_url staging_dir input op
            (dispatched_transfer staging_dir op file plan)
            plan
            e
            w₁)
          (Dispatched input row file w)
          (Refused input row file w)
  from_tables n e w₁ node choice same =
      let t = dispatched_transfer staging_dir op file plan in
      Post-mono (send_dispatch base_url staging_dir input op t plan e w₁)
        (λ out w' h. (
          (n, h.4 ∙ node, choice),
          (
            updated_row (dispatched_operation op plan out.updated_at) row,
            new_row out.updated_at w' h.0,
            new_row-IsDispatched out h.5 h.6,
          ),
          new_transfer out w' h.3 h.4,
          new_job out w' h.1 h.4 h.5,
        ))
        (λ x w' h. elim h [
          | inl left ↦ inl (rw left found)
          | inr (at, rows) ↦ inr (
            updated_row (dispatched_operation op plan at) row,
            new_row at w' rows,
            new_row-status at,
          )
        ])
        (send-Post base_url staging_dir input op t plan e w w₁ same)

module _ (base_url staging_dir : String) (input : DispatchOperationInput) (row : OperationRow)
    (file : InputFile) (w : World) (found : row_of input.operation_id w ≡ some row) where
  file-Post :
      (e : Env) (w₁ : World)
      → HasDigits e
      → w₁.db ≡ w.db
      → Post
          (dispatch_file base_url staging_dir input (row_to_operation row) (some file) e w₁)
          (Dispatched input row file w)
          (Refused input row file w)
  unfolding dispatch_file
  file-Post e w₁ digits same =
      let P = Dispatched input row file w in
      let Q = Refused input row file w in
      Post-after P Q (select_worker e w₁) _ (select_worker-Post e w₁)
        (λ x w' h. inl (rw (h.1, same) found))
        λ worker w₂ h₂.
          Post-after P Q (make_plan base_url staging_dir worker e w₂) _
            (plan-Post e digits base_url staging_dir worker w₂) (λ x w' h. absurd h)
            λ plan w₃ h₃.
              from_tables base_url staging_dir input row file w found plan h₂.0.0 e w₃
                (h₃.0 ∙ h₂.0.1.0) (rw same at h₂.0.1.1) (h₃.1 ∙ (h₂.1 ∙ same))

-- A dispatch that returns has chosen a worker that takes work, has stored a transfer for the
-- operation's file and a job for that worker, and has made the operation DISPATCHED at the next
-- version, with the new job and attempt; its transfer is not named, and the job has no time of
-- dispatch. One that fails has left the operation as it was, or DISPATCHED it and failed behind that.
-- The operation has an input file; its status is not asked.
pub dispatch-outcome :
    (base_url staging_dir : String) (input : DispatchOperationInput) (row : OperationRow)
    (file : InputFile) (e : Env) (w : World)
    → HasDigits e
    → row_of input.operation_id w ≡ some row
    → (row_to_operation row).input_file ≡ some file
    → Post
        (execute base_url staging_dir input e w)
        (Dispatched input row file w)
        (Refused input row file w)
unfolding execute dispatch_loaded dispatch_file Operations.get_by_id
dispatch-outcome base_url staging_dir input row file e w digits found has =
    elim (Bool-cases (e.fails w.calls)) [
      | inl bad ↦ rw bad (inl found)
      | inr good ↦
          rw (good, found)
            (subst
              (λ o.
                Post
                  (dispatch_file base_url staging_dir input (row_to_operation row) o e (counted w))
                  (Dispatched input row file w) (Refused input row file w))
              (sym has)
              (file-Post base_url staging_dir input row file w found e (counted w) digits refl))
    ]
