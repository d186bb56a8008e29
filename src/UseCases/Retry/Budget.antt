-- ===== src/UseCases/Retry/Budget.antt =====
-- retry.go: what a retry leaves in the table of the operations, and the budget of attempts.
use update_service.Base.{
  ℕ, suc, ◌∙◌, ◌+◌, ◌≤◌, ◌≡◌, ◌⊎◌, inl, inr, Bool-cases, subst, sym, refl, String, Option, none,
  some, List, arith, ◌&&◌, not, leb, ap, find_key, cat, hex_number,
}
use update_service.Domain.Operation.{Operation, failed, timeout, same_status}
use update_service.Domain.Transition.Diagram.{same_status→≡}
use update_service.Effect.{Error, Env, World, now, counted}
use update_service.Effect.Tables.{OperationRow}
use update_service.Effect.Post.{Post, Post-after, Post-ignored, Post-mono}
use update_service.Repositories.Operations
use update_service.Repositories.Operations.{
  row_to_operation, updated_row, scanned, is_previous, text,
}
use update_service.Repositories.Operations.Locking.{
  own_id, row_of, rows_after, next_row, rows_after-cases,
}
use update_service.Repositories.Jobs
use update_service.Repositories.Attempts
use update_service.Repositories.Events
use update_service.Repositories.Posts
use update_service.UseCases.Retry.{
  RetryOperationInput, RetryOperationOutput, requeued, assigned, retry_job, retry_attempt,
  retry_allowed, retry_loaded, execute,
}

-- No operation has used more attempts than it has.
abbrev pub IsWithin : List OperationRow → Type 0
IsWithin rows =
    (id : String) (row : OperationRow)
    → find_key OperationRow.id id rows ≡ some row
    → row.retry_count ≤ row.max_attempts

module _ (op : Operation) (rows : List OperationRow) where
  -- The table after the two updates of a retry.
  abbrev pub after_both : String → String → List OperationRow
  after_both job_id attempt_id = rows_after (assigned op job_id attempt_id) (rows_after op rows)

  -- The table of a retry that has been cut short: nothing is written, or the operation is queued
  -- again, or that and its job.
  abbrev pub Partial : List OperationRow → Type 0
  Partial after =
      (after ≡ rows)
      ⊎ ((after ≡ rows_after op rows)
          ⊎ ((ids : String × String) × (after ≡ after_both ids.0 ids.1)))

  -- What a retry that returns leaves, and what it returns.
  abbrev pub Retried : RetryOperationOutput → List OperationRow → Type 0
  Retried out after =
      (after ≡ after_both (text out.current_job_id) (text out.current_attempt_id))
      × (out.retry_count ≡ op.retry_count)
      × (out.version ≡ op.version + 1)

module _ (base_url : String) (input : RetryOperationInput) (loaded : Operation) (e : Env)
    (w : World) where
  abbrev at : ℕ
  at = e.clock w.calls

  abbrev op : Operation
  op = requeued loaded at

  abbrev P : RetryOperationOutput → World → Type 0
  P out w' = Retried op w.db.operations out w'.db.operations

  abbrev Q : Error → World → Type 0
  Q x w' = Partial op w.db.operations w'.db.operations

  kept :
      (job_id attempt_id : String)
      → ((assigned op job_id attempt_id).retry_count ≡ op.retry_count)
        × ((assigned op job_id attempt_id).version ≡ op.version + 1)
  unfolding assigned
  kept job_id attempt_id = (refl, ground arith)

  retry_allowed-Post : Post (retry_allowed base_url input loaded e w) P Q
  unfolding retry_allowed now
  retry_allowed-Post =
      let w₁ = counted w in
      Post-after P Q (Operations.update op e w₁) _ (Posts.operations-update e w₁ op)
        (λ x w' h. elim h.1 [
          | inl left ↦ inl (ground arith)
          | inr right ↦ inr (inl (ground arith))
        ])
        λ _ w₂ h₂.
          let job_id = cat "job-" (hex_number (e.clock w₂.calls)) in
          let attempt_id = cat "attempt-" (hex_number (e.clock (suc w₂.calls))) in
          let op' = assigned op job_id attempt_id in
          let Both : World → Type 0 =
            λ w'. w'.db.operations ≡ after_both op w.db.operations job_id attempt_id in
          let w₃ = counted (counted (counted (counted w₂))) in
          Post-after P Q (Jobs.create (retry_job op job_id at) e w₃) _ (Posts.jobs-create e w₃ _)
            (λ x w' h. inr (inl (ground arith)))
            λ _ w₄ h₄.
              Post-after P Q (Attempts.create (retry_attempt op job_id attempt_id _ _ at) e w₄) _
                (Posts.attempts-create e w₄ _) (λ x w' h. inr (inl (ground arith)))
                λ _ w₅ h₅.
                  Post-after P Q (Operations.update op' e w₅) _ (Posts.operations-update e w₅ op')
                    (λ x w' h. elim h.1 [
                      | inl left ↦ inr (inl (ground arith))
                      | inr right ↦ inr (inr ((job_id, attempt_id), ground arith))
                    ])
                    λ _ w₆ h₆.
                      Post-ignored P Q Both (Events.append _) e (counted w₆) _
                        (Posts.events-append e (counted w₆) _) (λ _ w' h. ground arith)
                        (λ x w' h. ground arith)
                        λ _ w₇ h₇. (h₇, (kept job_id attempt_id).0, (kept job_id attempt_id).1)

abbrev value : OperationRow → Option OperationRow → OperationRow
value row none = row
value row (some x) = x

-- Writing a row within its budget keeps every operation within its own.
rows_after-IsWithin :
    (written : Operation) (row : OperationRow) (rows : List OperationRow)
    → find_key OperationRow.id written.id rows ≡ some row
    → written.retry_count ≤ row.max_attempts
    → IsWithin rows
    → IsWithin (rows_after written rows)
unfolding updated_row
rows_after-IsWithin written row rows found h within id x found_after =
    elim (rows_after-cases written row id rows found) [
      | inl same ↦ within id x (sym same ∙ found_after)
      | inr (_, _, new) ↦
          subst (λ (y : OperationRow). y.retry_count ≤ y.max_attempts)
            (ap (value row) (sym new ∙ found_after)) h
    ]

-- The row of the operation that is loaded, and what is written over it.
module _ (row : OperationRow) (rows : List OperationRow) (at : ℕ) where
  abbrev requeued_op : Operation
  requeued_op = requeued (row_to_operation row) at

  module _ (found : find_key OperationRow.id row.id rows ≡ some row)
      (h : suc row.retry_count ≤ row.max_attempts) (within : IsWithin rows) where
    found_first :
        find_key OperationRow.id requeued_op.id (rows_after requeued_op rows)
        ≡ some (updated_row requeued_op row)
    unfolding requeued row_to_operation
    found_first = next_row requeued_op row rows found (ground arith)

    first-IsWithin : IsWithin (rows_after requeued_op rows)
    unfolding requeued row_to_operation
    first-IsWithin = rows_after-IsWithin requeued_op row rows found h within

    both-IsWithin :
        (job_id attempt_id : String) → IsWithin (after_both requeued_op rows job_id attempt_id)
    unfolding assigned requeued row_to_operation updated_row
    both-IsWithin job_id attempt_id =
        rows_after-IsWithin (assigned requeued_op job_id attempt_id) (updated_row requeued_op row)
          (rows_after requeued_op rows) found_first h first-IsWithin

-- What the two checks of a retry let through: a row that has failed or timed out, with attempts left.
abbrev pub IsOpen : OperationRow → Type 0
IsOpen row =
    ((row.status ≡ failed) ⊎ (row.status ≡ timeout)) × (suc row.retry_count ≤ row.max_attempts)

module _ (base_url : String) (input : RetryOperationInput) (row : OperationRow)
    (rows : List OperationRow) where
  abbrev pub Done : ℕ → RetryOperationOutput → World → Type 0
  Done at out w' =
      IsOpen row × Retried (requeued (row_to_operation row) at) rows out w'.db.operations

  abbrev pub Refused : ℕ → Error → World → Type 0
  Refused at x w' =
      (w'.db.operations ≡ rows)
      ⊎ (IsOpen row × Partial (requeued (row_to_operation row) at) rows w'.db.operations)

  retry_loaded-Post :
      (e : Env) (w : World)
      → w.db.operations ≡ rows
      → Post
          (retry_loaded base_url input (some (row_to_operation row)) e w)
          (Done (e.clock w.calls))
          (Refused (e.clock w.calls))
  unfolding retry_loaded row_to_operation
  retry_loaded-Post e w same =
      elim (Bool-cases
        (not (same_status row.status failed) && not (same_status row.status timeout))) [
          | inl bad ↦ rw bad (inl same)
          | inr good ↦ rw good (elim (Bool-cases (leb row.max_attempts row.retry_count)) [
            | inl spent ↦ rw spent (inl same)
            | inr left ↦
                let open_row : IsOpen row = (
                  ground (arith, same_status→≡ row.status failed, same_status→≡ row.status timeout),
                  ground arith,
                ) in
                rw left (
                  Post-mono (retry_allowed base_url input (row_to_operation row) e w)
                    (λ out w' h. (open_row, rw same at h)) (λ x w' h. inr (open_row, rw same at h))
                    (retry_allowed-Post base_url input (row_to_operation row) e w))
          ])
        ]

-- In terms of the whole table.
pub execute-rows :
    (base_url : String) (input : RetryOperationInput) (row : OperationRow) (e : Env) (w : World)
    → row_of input.operation_id w ≡ some row
    → Post
        (execute base_url input e w)
        (Done base_url input row w.db.operations (e.clock (suc w.calls)))
        (Refused base_url input row w.db.operations (e.clock (suc w.calls)))
unfolding execute Operations.get_by_id
execute-rows base_url input row e w found = elim (Bool-cases (e.fails w.calls)) [
  | inl bad ↦ rw bad (inl refl)
  | inr good ↦
      rw (good, found) (retry_loaded-Post base_url input row w.db.operations e (counted w) refl)
]

module _ (row : OperationRow) (rows : List OperationRow) (at : ℕ)
    (found : find_key OperationRow.id row.id rows ≡ some row) (within : IsWithin rows) where
  -- However far a retry comes, every operation is within its budget.
  Partial-IsWithin :
      (after : List OperationRow)
      → IsOpen row
      → Partial (requeued (row_to_operation row) at) rows after
      → IsWithin after
  Partial-IsWithin after o (inl same) = rw same within
  Partial-IsWithin after o (inr (inl once)) = rw once (first-IsWithin row rows at found o.1 within)
  Partial-IsWithin after o (inr (inr (ids, both))) =
      rw both (both-IsWithin row rows at found o.1 within ids.0 ids.1)

module _ (base_url : String) (input : RetryOperationInput) (e : Env) (w : World)
    (within : IsWithin w.db.operations) where
  abbrev Kept : World → Type 0
  Kept w' = IsWithin w'.db.operations

  Kept-by_row :
      (o : Option OperationRow)
      → row_of input.operation_id w ≡ o
      → Post (execute base_url input e w) (λ _ w'. Kept w') (λ _ w'. Kept w')
  unfolding execute Operations.get_by_id retry_loaded
  Kept-by_row none missing = elim (Bool-cases (e.fails w.calls)) [
    | inl bad ↦ rw bad within
    | inr good ↦ rw (good, missing) within
  ]
  Kept-by_row (some row) found =
      let at = e.clock (suc w.calls) in
      let own = own_id input.operation_id row w.db.operations found in
      Post-mono (execute base_url input e w)
        (λ out w' h.
          Partial-IsWithin row w.db.operations at own within w'.db.operations h.0
            (inr (inr ((text out.current_job_id, text out.current_attempt_id), h.1.0))))
        (λ x w' h. elim h [
          | inl same ↦ rw same within
          | inr (o, some_part) ↦
              Partial-IsWithin row w.db.operations at own within w'.db.operations o some_part
        ])
        (execute-rows base_url input row e w found)

-- If no operation has used more attempts than it has, then none has after a retry, whatever the
-- outside does and wherever it fails.
pub execute-IsWithin :
    (base_url : String) (input : RetryOperationInput) (e : Env) (w : World)
    → IsWithin w.db.operations
    → Post
        (execute base_url input e w)
        (λ _ w'. IsWithin w'.db.operations)
        (λ _ w'. IsWithin w'.db.operations)
execute-IsWithin base_url input e w within =
    Kept-by_row base_url input e w within (row_of input.operation_id w) refl
