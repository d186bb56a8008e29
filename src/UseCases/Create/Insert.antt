-- ===== src/UseCases/Create/Insert.antt =====
-- create.go: what `Execute` leaves in the tables.
use update_service.Base.{ℕ, ◌≡◌, refl, String, Option, none, ◌∷◌, arith, cat}
use update_service.Domain.Json.{Json}
use update_service.Effect.{counted, Error, Env, World, attempt}
use update_service.Effect.Post.{Post, Post-after, Post-ignored, Post-attempt}
use update_service.Repositories.Operations
use update_service.Repositories.Operations.{created_row}
use update_service.Repositories.Events
use update_service.Repositories.Idempotency
use update_service.Repositories.Posts
use update_service.UseCases.Create.{
  CreateOperationInput, execute, create_fresh, new_operation, new_output,
}
use update_service.UseCases.Create.Output.{CreateOperationOutput}

module _ (base_url : String) (input : CreateOperationInput) (at : ℕ) (w : World) where
  -- One more row, for the operation that the output names.
  abbrev pub Inserted : CreateOperationOutput → World → Type 0
  Inserted out w' =
      (w'.db.operations ≡ created_row (new_operation input out.operation_id at) ∷ w.db.operations)
      × (out ≡ new_output base_url out.operation_id at)

  abbrev pub Unchanged : Error → World → Type 0
  Unchanged x w' = w'.db.operations ≡ w.db.operations

  create_fresh-Post :
      (idempotency_key method path : String) (e : Env) (w₁ : World)
      → w₁.db.operations ≡ w.db.operations
      → Post (create_fresh base_url input idempotency_key method path at e w₁) Inserted Unchanged
  unfolding create_fresh
  create_fresh-Post idempotency_key method path e w₁ same =
      let id = cat "op" (cat "-" (e.random w₁.calls)) in
      let op = new_operation input id at in
      let w₂ = counted w₁ in
      Post-after Inserted Unchanged (Operations.create op e w₂) _ (Posts.operations-create e w₂ op)
        (λ x w' h. ground arith)
        λ _ w₃ h₃.
          let w₄ = counted w₃ in
          let Kept : World → Type 0 = λ w'. w'.db.operations ≡ w₃.db.operations in
          Post-ignored Inserted Unchanged Kept (Events.append _) e w₄ _ (Posts.events-append e w₄ _)
            (λ _ w' h. ground arith) (λ x w' h. ground arith)
            λ _ w₅ h₅.
              Post-ignored Inserted Unchanged Kept (Idempotency.store _ _ _ _ _ _) e w₅ _
                (Posts.idempotency-store e w₅ _ _ _ _ _ _) (λ _ w' h. absurd h)
                (λ x w' h. ground arith) λ _ w₆ h₆. (ground arith, refl)

-- Every call of `Execute` that returns has inserted one row, for a new operation in CREATED at
-- version 1, and every call that fails has changed no operation, whatever the outside does and
-- whatever key it is given: no call is answered from the idempotency table.
pub execute-inserts :
    (base_url : String) (input : CreateOperationInput) (idempotency_key method path : String)
    (e : Env) (w : World)
    → Post
        (execute base_url input idempotency_key method path e w)
        (Inserted base_url input (e.clock w.calls) w)
        (Unchanged base_url input (e.clock w.calls) w)
unfolding execute
execute-inserts base_url input idempotency_key method path e w =
    let at = e.clock w.calls in
    let w₁ = counted w in
    let Missed : Option (String × Json × ℕ) → World → Type 0 =
      λ cached w'. (cached ≡ none) × (w'.db.operations ≡ w.db.operations) in
    Post-after (Inserted base_url input at w) (Unchanged base_url input at w)
      (attempt (Idempotency.get _ _ _) e w₁) _
      (Post-attempt (Idempotency.get _ _ _) e w₁ Missed (λ _ _. ⊥)
        (Posts.idempotency-get e w₁ _ _ _) (λ _ w' h. absurd h) (λ x w' h. (refl, ground arith)))
      (λ x w' h. absurd h)
      λ cached w₂ h.
        rw h.0 (create_fresh-Post base_url input at w idempotency_key method path e w₂ h.1)
