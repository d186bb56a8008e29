-- ===== src/UseCases/Cancel/Intent.antt =====
-- cancel.go: what `Execute` does on each branch, and what it leaves alone.
use mathlib.Core.Option
use update_service.Base.{
  ℕ, suc, ◌+◌, Bool-cases, if◌then◌else◌, subst, sym, ◌≡◌, inl, inr, refl, String, Bool, false,
  Option, none, some, List, arith, ◌||◌, ap, find_key,
}
use update_service.Domain.Operation.{same_status, completed, cancelled}
use update_service.Effect.{
  Error, operation_not_found, already_terminal, Env, World, err, IsReliable, Returns, now, counted,
}
use update_service.Effect.Tables.{OperationRow}
use update_service.Effect.Post.{Post, Post-after, Post-ignored, Returns-ignored}
use update_service.Repositories.Operations
use update_service.Repositories.Operations.{row_to_operation, updated_row, scanned}
use update_service.Repositories.Operations.Locking.{
  own_id, row_of, rows_after, rows_after-cases, next_row,
}
use update_service.Repositories.Events
use update_service.Repositories.Posts
use update_service.UseCases.Cancel.{
  CancelOperationInput, CancelOperationOutput, cancel_requested, cancel_open, cancel_loaded,
  execute,
}

-- The operations whose cancellation is refused.
abbrev pub is_terminal : OperationRow → Bool
is_terminal row = same_status row.status completed || same_status row.status cancelled

module _ (base_url : String) (input : CancelOperationInput) (e : Env) (w : World) where
  -- Every id has the status that it had.
  abbrev pub SameStatus : World → Type 0
  SameStatus w' =
      (id : String)
      → Option.map OperationRow.status (row_of id w') ≡ Option.map OperationRow.status (row_of id w)

  -- The wish of a cancellation does not change the row's status.
  wish_status :
      (row : OperationRow) (at : ℕ)
      → (updated_row (cancel_requested (row_to_operation row) at) row).status ≡ row.status
  unfolding updated_row cancel_requested row_to_operation
  wish_status row at = refl

  wish_id : (row : OperationRow) (at : ℕ) → (cancel_requested (row_to_operation row) at).id ≡ row.id
  unfolding cancel_requested row_to_operation
  wish_id row at = refl

  rows_after-status :
      (row : OperationRow) (at : ℕ) (w' : World)
      → row_of row.id w ≡ some row
      → w'.db.operations ≡ rows_after (cancel_requested (row_to_operation row) at) w.db.operations
      → SameStatus w'
  rows_after-status row at w' found after id =
      let op = cancel_requested (row_to_operation row) at in
      elim (rows_after-cases op row id w.db.operations (rw (wish_id row at) found)) [
        | inl same ↦ rw (after, same) refl
        | inr (_, before, now) ↦ rw (after, before, now) (ap some (wish_status row at))
      ]

  cancel_open-status :
      (row : OperationRow) (w₁ : World)
      → row_of row.id w ≡ some row
      → w₁.db ≡ w.db
      → Post
          (cancel_open base_url input (row_to_operation row) e w₁)
          (λ _ w'. SameStatus w')
          (λ _ w'. SameStatus w')
  unfolding cancel_open now
  cancel_open-status row w₁ found same =
      let op = cancel_requested (row_to_operation row) (e.clock w₁.calls) in
      let Done : World → Type 0 = λ w'. w'.db.operations ≡ rows_after op w.db.operations in
      let Q : Error → World → Type 0 = λ _ w'. SameStatus w' in
      Post-after (λ _ w'. SameStatus w') Q (Operations.update op e (counted w₁)) _
        (Posts.operations-update e (counted w₁) op)
        (λ x w' h. elim h.1 [
          | inl left ↦ λ id. rw (left.0, same) refl
          | inr right ↦ rows_after-status row (e.clock w₁.calls) w' found (ground arith)
        ])
        λ _ w₂ h₂.
          Post-ignored (λ _ w'. SameStatus w') Q Done (Events.append _) e (counted w₂) _
            (Posts.events-append e (counted w₂) _) (λ _ w' h. ground arith) (λ x w' h. ground arith)
            λ _ w₃ h₃. rows_after-status row (e.clock w₁.calls) w₃ found h₃

  cancel_loaded-status :
      (o : Option OperationRow) (w₁ : World)
      → row_of input.operation_id w ≡ o
      → w₁.db ≡ w.db
      → Post
          (cancel_loaded base_url input (scanned o) e w₁)
          (λ _ w'. SameStatus w')
          (λ _ w'. SameStatus w')
  unfolding cancel_loaded
  cancel_loaded-status none w₁ found same = λ id. rw same refl
  cancel_loaded-status (some row) w₁ found same =
      elim (Bool-cases (
        same_status (row_to_operation row).status completed
        || same_status (row_to_operation row).status cancelled)) [
          | inl t ↦ rw t (λ id. rw same refl)
          | inr f ↦
              rw f (
                cancel_open-status row w₁ (own_id input.operation_id row w.db.operations found)
                  same)
        ]

-- A cancellation changes the status of no operation, whatever the outside does: not of the one that
-- it names, which only keeps the wish, and not of any other.
pub execute-status :
    (base_url : String) (input : CancelOperationInput) (e : Env) (w : World)
    → Post
        (execute base_url input e w)
        (λ _ w'. SameStatus base_url input e w w')
        (λ _ w'. SameStatus base_url input e w w')
unfolding execute
execute-status base_url input e w =
    let P : CancelOperationOutput → World → Type 0 = λ _ w'. SameStatus base_url input e w w' in
    let Q : Error → World → Type 0 = λ _ w'. SameStatus base_url input e w w' in
    Post-after P Q (Operations.get_by_id input.operation_id e w) _
      (Posts.operations-get_by_id e w input.operation_id) (λ x w' h id. rw h.0 refl)
      λ o w₁ h.
        rw h.0 (cancel_loaded-status base_url input e w (row_of input.operation_id w) w₁ refl h.1.0)

next_version :
    (row : OperationRow) (at : ℕ)
    → (cancel_requested (row_to_operation row) at).version ≡ row.version + 1
unfolding cancel_requested row_to_operation
next_version row at = ground arith

old_status :
    (row : OperationRow) (at : ℕ) → (cancel_requested (row_to_operation row) at).status ≡ row.status
unfolding cancel_requested row_to_operation
old_status row at = refl

cancel_open-result :
    (base_url : String) (input : CancelOperationInput) (e : Env) (w : World) (row : OperationRow)
    → IsReliable e
    → row_of row.id w ≡ some row
    → Returns (cancel_open base_url input (row_to_operation row) e w) (λ out w'.
      (row_of row.id w'
        ≡ some (updated_row (cancel_requested (row_to_operation row) out.cancel_requested_at) row))
      × (out.status ≡ row.status)
      × (out.version ≡ row.version + 1))
unfolding cancel_open now Operations.update
cancel_open-result base_url input e w row r found =
    let op = cancel_requested (row_to_operation row) (e.clock w.calls) in
    let after : List OperationRow = rows_after op w.db.operations in
    let same : op.id ≡ row.id = wish_id base_url input e w row (e.clock w.calls) in
    let written : find_key OperationRow.id row.id after ≡ some (updated_row op row) =
      subst (λ k. find_key OperationRow.id k after ≡ some (updated_row op row)) same
        (next_row op row w.db.operations (rw same found)
          (sym (next_version row (e.clock w.calls)))) in
    rw (r (suc w.calls), r (suc (suc w.calls)))
      (Returns-ignored _ (λ w'. w'.db.operations ≡ after) (Events.append _) e _ _
        (Posts.events-append e _ _) (λ _ w' h. ground arith) (λ x w' h. ground arith)
        λ _ w' h.
          (rw h written, old_status row (e.clock w.calls), next_version row (e.clock w.calls)))

cancel_loaded-open :
    (base_url : String) (input : CancelOperationInput) (row : OperationRow)
    → is_terminal row ≡ false
    → cancel_loaded base_url input (some (row_to_operation row))
      ≡ cancel_open base_url input (row_to_operation row)
unfolding cancel_loaded row_to_operation
cancel_loaded-open base_url input row t = rw t refl

module _ (base_url : String) (input : CancelOperationInput) (e : Env) (w : World) where
  -- What becomes of a cancellation, given the row that its id has.
  abbrev pub Branch : Option OperationRow → Type 0
  Branch none = execute base_url input e w ≡ err operation_not_found (counted w)
  Branch (some row) =
      if is_terminal row
      then (execute base_url input e w ≡ err already_terminal (counted w))
      else Returns (execute base_url input e w) (λ out w'.
        (row_of row.id w'
          ≡ some
              (updated_row (cancel_requested (row_to_operation row) out.cancel_requested_at) row))
        × (out.status ≡ row.status)
        × (out.version ≡ row.version + 1))

  branch : (o : Option OperationRow) → IsReliable e → row_of input.operation_id w ≡ o → Branch o
  unfolding execute cancel_loaded row_to_operation Operations.get_by_id
  branch none r h = rw (r w.calls, h) refl
  branch (some row) r h = elim (Bool-cases (is_terminal row)) [
    | inl t ↦ rw (t, r w.calls, h, t) refl
    | inr t ↦
        rw (t, r w.calls, h, cancel_loaded-open base_url input row t)
          (cancel_open-result base_url input e (counted w) row r
            (own_id input.operation_id row w.db.operations h))
  ]

-- What a store that answers makes of a cancellation. An unknown id and an operation that has ended
-- are refused with their errors, and no table changes. Otherwise the row of the id is the old one
-- with the time of the wish and the next version, and the output names that version and the old
-- status.
pub execute-branches :
    (base_url : String) (input : CancelOperationInput) (e : Env) (w : World)
    → IsReliable e
    → Branch base_url input e w (row_of input.operation_id w)
execute-branches base_url input e w r =
    branch base_url input e w (row_of input.operation_id w) r refl
