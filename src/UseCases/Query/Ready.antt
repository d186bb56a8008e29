-- ===== src/UseCases/Query/Ready.antt =====
-- result.go: when a result is given out.
use update_service.Base.{
  ◌≡◌, ◌⊎◌, inl, inr, refl, Bool-cases, String, false, Option, none, some, find_key, find_key-key,
}
use update_service.Domain.Operation.{completed, same_status}
use update_service.Domain.Transition.Diagram.{same_status→≡}
use update_service.Effect.{
  Error, external, operation_not_found, result_not_ready, Env, World, ◌>>=◌, counted,
}
use update_service.Effect.Tables.{OperationRow, OperationResult}
use update_service.Effect.Post.{Post}
use update_service.Repositories.Operations
use update_service.Repositories.Operations.{row_to_operation, scanned}
use update_service.Repositories.Operations.Locking.{row_of}
use update_service.Repositories.Events
use update_service.UseCases.Query.{stored_result, result_loaded, get_result}

abbrev pub result_of : String → World → Option OperationResult
result_of id w = find_key OperationResult.operation_id id w.db.results

module _ (id : String) (w : World) where
  -- The operation is there and has ended, and its result is stored.
  abbrev pub IsReady : OperationResult → Type 0
  IsReady r =
      ((row : OperationRow) × ((row_of id w ≡ some row) × (row.status ≡ completed)))
      × (result_of id w ≡ some r)

  -- Why there is no result: a failure outside, no such operation, one that is not COMPLETED, or one
  -- whose result is not stored.
  abbrev pub Reason : Error → Type 0
  Reason x =
      (x ≡ external)
      ⊎ (((x ≡ operation_not_found) × (row_of id w ≡ none))
          ⊎ ((x ≡ result_not_ready)
              × (((row : OperationRow) × ((row_of id w ≡ some row)
                      × (same_status row.status completed ≡ false)))
                  ⊎ (result_of id w ≡ none))))

  abbrev P : OperationResult → World → Type 0
  P r w' = IsReady r × (w'.db ≡ w.db)

  abbrev Q : Error → World → Type 0
  Q x w' = Reason x × (w'.db ≡ w.db)

  stored_result-Post :
      (e : Env) (o : Option OperationResult) (w₁ : World)
      → ((row : OperationRow) × ((row_of id w ≡ some row) × (row.status ≡ completed)))
      → result_of id w₁ ≡ o
      → w₁.db ≡ w.db
      → Post ((Events.get_result_by_operation_id id >>= stored_result) e w₁) P Q
  unfolding Events.get_result_by_operation_id
  stored_result-Post e o w₁ there found same = elim (Bool-cases (e.fails w₁.calls)) [
    | inl bad ↦ rw bad (inl refl, same)
    | inr good ↦ rw (good, found) (stored o found)
  ]
    where
      stored :
          (o : Option OperationResult)
          → result_of id w₁ ≡ o
          → Post (stored_result o e (counted w₁)) P Q
      stored none found = (inr (inr (refl, inr (rw same at found))), same)
      stored (some r) found = ((there, rw same at found), same)

  result_loaded-Post :
      (e : Env) (o : Option OperationRow) (w₁ : World)
      → row_of id w ≡ o
      → w₁.db ≡ w.db
      → Post (result_loaded (scanned o) e w₁) P Q
  unfolding result_loaded row_to_operation
  result_loaded-Post e none w₁ found same = (inr (inl (refl, found)), same)
  result_loaded-Post e (some row) w₁ found same =
      elim (Bool-cases (same_status row.status completed)) [
        | inl done ↦
            rw (done, key row found)
              (stored_result-Post e (result_of id w₁) w₁
                (row, (found, same_status→≡ row.status completed done)) refl same)
        | inr open_still ↦ rw open_still (inr (inr (refl, inl (row, (found, open_still)))), same)
      ]
    where
      key : (row : OperationRow) → row_of id w ≡ some row → row.id ≡ id
      key row found = find_key-key OperationRow.id id w.db.operations row found

-- A result is given out only for an operation that is COMPLETED and whose result is stored, an error
-- has its reason in the tables or outside, and no table changes.
pub get_result-Post :
    (id : String) (e : Env) (w : World)
    → Post
        (get_result id e w)
        (λ r w'. IsReady id w r × (w'.db ≡ w.db))
        (λ x w'. Reason id w x × (w'.db ≡ w.db))
unfolding get_result Operations.get_by_id
get_result-Post id e w = elim (Bool-cases (e.fails w.calls)) [
  | inl bad ↦ rw bad (inl refl, refl)
  | inr good ↦ rw good (result_loaded-Post id w e (row_of id w) (counted w) refl refl)
]
