-- ===== src/Coordinator/Lost.antt =====
-- role.go: what the handlers' updates do to the table of the operations.
use update_service.Base.{
  ℕ, str_eq, ◌≡◌, inl, inr, refl, Bool-cases, String, Bool, true, false, Option, none, some, arith,
  if◌then◌else◌,
}
use update_service.Domain.Json.{Fields}
use update_service.Domain.Operation.{Operation}
use update_service.Domain.Event
use update_service.Domain.Event.{
  EventType, event_type_string, OperationEvent, processing_succeeded, processing_failed,
  transfer_verified, operation_transferred, operation_completed, operation_failed,
  operation_cancelled,
}
use update_service.Effect.{Error, Env, World, M, ◌>>=◌, now, random_hex, counted}
use update_service.Effect.Tables.{OperationRow}
use update_service.Effect.Post.{Post, Post-after, Post-ignore_error, Post-ignored}
use update_service.Repositories.Operations
use update_service.Repositories.Operations.{row_to_operation, scanned}
use update_service.Repositories.Operations.Locking.{
  row_of, IsKeyedWorld, own_id, rows_after, stale_rows,
}
use update_service.Repositories.Events
use update_service.Repositories.Posts
use update_service.Coordinator.{
  generate_event_id, handle_processing_succeeded, handle_processing_failed, handle_cancelled,
  handle_transfer_verified, index, succeeded, failed_with, called_off, verified, mark, mark_loaded,
  handle_event,
}

-- A change that keeps the id and the version: each of the four does.
abbrev KeepsVersion : (Fields → Operation → ℕ → Operation) → Type 0
KeepsVersion change =
    (payload : Fields) (op : Operation) (at : ℕ)
    → ((change payload op at).id ≡ op.id) × ((change payload op at).version ≡ op.version)

module _ (change : Fields → Operation → ℕ → Operation) (keeps : KeepsVersion change)
    (node_id : String) (type : EventType) (indexes : Bool) (operation_id : String)
    (payload : Fields) (e : Env) (w : World) (keyed : IsKeyedWorld w) where
  abbrev Same : World → Type 0
  Same w' = w'.db.operations ≡ w.db.operations

  abbrev P : Unit {0} → World → Type 0
  P _ w' = Same w'

  abbrev Q : Error → World → Type 0
  Q _ w' = Same w'

  unwritten :
      (row : OperationRow) (at : ℕ)
      → row_of row.id w ≡ some row
      → rows_after (change payload (row_to_operation row) at) w.db.operations ≡ w.db.operations
  unfolding row_to_operation
  unwritten row at found =
      let op = change payload (row_to_operation row) at in
      let k = keeps payload (row_to_operation row) at in
      stale_rows op row w.db.operations keyed (rw k.0 found) (λ h. absurd (omega (arith, h, k.1)))

  mark_loaded-Post :
      (o : Option OperationRow) (w₁ : World)
      → row_of operation_id w ≡ o
      → Same w₁
      → Post (mark_loaded node_id change type indexes operation_id payload (scanned o) e w₁) P Q
  unfolding mark_loaded now generate_event_id random_hex index
  mark_loaded-Post none w₁ found same = same
  mark_loaded-Post (some row) w₁ found same =
      let at = e.clock w₁.calls in
      let op = change payload (row_to_operation row) at in
      let lost : rows_after op w.db.operations ≡ w.db.operations =
        unwritten row at (own_id operation_id row w.db.operations found) in
      Post-after P Q (Operations.update op e (counted w₁)) _
        (Posts.operations-update e (counted w₁) op)
        (λ x w' h. elim h.1 [
          | inl left ↦ rw (left.0, same) refl
          | inr right ↦ rw (right.0, same) lost
        ])
        λ _ w₂ h₂.
          let same₂ : Same w₂ = rw (h₂.0, same) lost in
          Post-ignored P Q Same (Events.append _) e (counted w₂) _
            (Posts.events-append e (counted w₂) _) (λ _ w' h. rw h.0 same₂) (λ x w' h. rw h.0 same₂)
            λ _ w₃ h₃. elim (Bool-cases indexes) [ inl y ↦ rw y h₃ | inr n ↦ rw n h₃ ]

  mark-Post : Post (mark node_id change type indexes operation_id payload e w) P (λ _ _. ⊥)
  unfolding mark
  mark-Post =
      Post-ignore_error Same (λ _ _. ⊥) (Operations.get_by_id operation_id >>= loaded) e w
        (Post-after P Q (Operations.get_by_id operation_id e w) (λ o. loaded o e)
          (Posts.operations-get_by_id e w operation_id) (λ x w' h. rw h.0 refl)
          λ o w₁ h. rw h.0 (mark_loaded-Post (row_of operation_id w) w₁ refl (rw h.1.0 refl)))
        (λ _ w' h. h) (λ x w' h. h)
    where
      loaded : Option Operation → M (Unit {0})
      loaded = mark_loaded node_id change type indexes operation_id payload

succeeded-version : KeepsVersion succeeded
unfolding succeeded
succeeded-version payload op at = (refl, refl)

failed_with-version : KeepsVersion failed_with
unfolding failed_with
failed_with-version payload op at = (refl, refl)

called_off-version : KeepsVersion called_off
unfolding called_off
called_off-version payload op at = (refl, refl)

verified-version : KeepsVersion verified
unfolding verified
verified-version payload op at = (refl, refl)

-- What a handler promises: it returns, and leaves the operations as they are.
record Leaves (e : Env) (w : World) (m : M (Unit {0})) : Type 0 where
  at : Post (m e w) (λ _ w'. w'.db.operations ≡ w.db.operations) (λ _ _. ⊥)

Leaves-if :
    {e : Env} {w : World} (b : Bool) {m n : M (Unit {0})}
    → Leaves e w m
    → Leaves e w n
    → Leaves e w (if b then m else n)
Leaves-if true h k = h
Leaves-if false h k = k

-- The coordinator changes no operation, whatever event it handles and whatever the outside does: the
-- handlers write an operation with the version that they have read, and the update looks for the
-- version before that.
pub handle_event-lost :
    (node_id : String) (has_indexer : Bool) (type operation_id : String) (payload : Fields)
    (e : Env) (w : World)
    → IsKeyedWorld w
    → Post
        (handle_event node_id has_indexer type operation_id payload e w)
        (λ _ w'. w'.db.operations ≡ w.db.operations)
        (λ _ _. ⊥)
unfolding handle_event handle_processing_succeeded handle_processing_failed handle_cancelled
    handle_transfer_verified
handle_event-lost node_id has_indexer type operation_id payload e w keyed = handled.at
  where
    all :
        (change : Fields → Operation → ℕ → Operation)
        → KeepsVersion change
        → (outcome : EventType) (indexes : Bool)
        → Leaves e w (mark node_id change outcome indexes operation_id payload)
    all change keeps outcome indexes = record {
      at = mark-Post change keeps node_id outcome indexes operation_id payload e w keyed;
    }

    handled : Leaves e w (handle_event node_id has_indexer type operation_id payload)
    handled =
        Leaves-if (str_eq type (event_type_string processing_succeeded))
          (all succeeded succeeded-version operation_completed has_indexer)
          (Leaves-if (str_eq type (event_type_string processing_failed))
            (all failed_with failed_with-version operation_failed has_indexer)
            (Leaves-if (str_eq type (event_type_string Event.cancelled))
              (all called_off called_off-version operation_cancelled has_indexer)
              (Leaves-if (str_eq type (event_type_string transfer_verified))
                (all verified verified-version operation_transferred false)
                (record { at = refl }))))
