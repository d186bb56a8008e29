-- ===== src/UseCases/Dispatch/Stored.antt =====
-- dispatch.go: what a dispatch leaves in the tables behind the choice of the worker.
use update_service.Base.{
  ℕ, zero, suc, ◌≡◌, ◌∙◌, ◌⊎◌, inl, inr, refl, Bool-cases, String, List, ◌∷◌, arith, ◌==◌, cat,
  length,
}
use update_service.Domain.Job.{FileTransfer}
use update_service.Domain.Json.{Json}
use update_service.Domain.Operation.{Operation}
use update_service.Effect.{Error, Env, World, M, now, counted, call}
use update_service.Effect.Post.{Post, Post-after, Post-ignored, Post-call, Post-mono}
use update_service.Nats.{publish_command}
use update_service.Repositories.Operations
use update_service.Repositories.Operations.Locking.{rows_after}
use update_service.Repositories.Jobs
use update_service.Repositories.Attempts
use update_service.Repositories.Transfers
use update_service.Repositories.Chunks
use update_service.Repositories.Events
use update_service.Repositories.Posts
use update_service.UseCases.Create.{generate_id}
use update_service.UseCases.Dispatch.{
  Plan, DispatchOperationInput, DispatchOperationOutput, dispatched_operation, dispatched_job,
  dispatched_attempt, start_transfer, process_update, read_at, send_chunk, send_chunks, open_input,
  publish_file_chunks, record_dispatch, send_dispatch,
}

-- The four tables that a dispatch writes last are as they were.
abbrev pub Kept : World → World → Type 0
Kept w w' =
    (w'.db.operations ≡ w.db.operations)
    × (w'.db.jobs ≡ w.db.jobs)
    × (w'.db.attempts ≡ w.db.attempts)
    × (w'.db.transfers ≡ w.db.transfers)

Kept-trans : (u v w : World) → Kept u v → Kept v w → Kept u w
Kept-trans u v w h k = (k.0 ∙ h.0, k.1 ∙ h.1, k.2 ∙ h.2, k.3 ∙ h.3)

-- An action that leaves them alone on return and on error.
abbrev KeepsTables : {A : Type 0} → M A → Env → World → Type 0
KeepsTables m e w = Post (m e w) (λ _ w'. Kept w w') (λ _ w'. Kept w w')

publish-Kept :
    (node_id : String) (payload : Json) (e : Env) (w : World)
    → KeepsTables (publish_command node_id payload) e w
unfolding publish_command
publish-Kept node_id payload e w = ground arith

module _ (t : FileTransfer) (e : Env) where
  send_chunk-Kept :
      (payload : List ℕ) (index : ℕ) (w : World) → KeepsTables (send_chunk t payload index) e w
  unfolding send_chunk Chunks.upsert
  send_chunk-Kept payload index w = ground arith

  send_chunks-Kept :
      (file : List ℕ) (rounds index : ℕ) (w : World)
      → KeepsTables (send_chunks t file rounds index) e w
  unfolding send_chunks
  send_chunks-Kept file zero index w = (refl, refl, refl, refl)
  send_chunks-Kept file (suc rounds) index w =
      Post-after (λ _ w'. Kept w w') (λ _ w'. Kept w w') (call e w) _ (Post-call e w)
        (λ x w' h. rw h.1 (refl, refl, refl, refl))
        λ _ w₁ h₁. elim (Bool-cases (length (read_at t file index) == 0)) [
          | inl over ↦ rw (over, h₁) (refl, refl, refl, refl)
          | inr more ↦ rw more (
              Post-after (λ _ w'. Kept w w') (λ _ w'. Kept w w')
                (send_chunk t (read_at t file index) index e w₁) _
                (send_chunk-Kept (read_at t file index) index w₁) (λ x w' h. from w₁ w' h₁ h)
                λ _ w₂ h₂.
                  Post-mono (send_chunks t file rounds (suc index) e w₂)
                    (λ _ w' h. Kept-trans w w₂ w' (from w₁ w₂ h₁ h₂) h)
                    (λ _ w' h. Kept-trans w w₂ w' (from w₁ w₂ h₁ h₂) h)
                    (send_chunks-Kept file rounds (suc index) w₂))
        ]
    where
      from : (w₁ w' : World) → w₁ ≡ counted w → Kept w₁ w' → Kept w w'
      from w₁ w' same h = rw same at h

  open_input-Kept : (path : String) (w : World) → KeepsTables (open_input path) e w
  unfolding open_input
  open_input-Kept path w = ground arith

  pub publish_file_chunks-Kept : (w : World) → KeepsTables (publish_file_chunks t) e w
  unfolding publish_file_chunks
  publish_file_chunks-Kept w =
      Post-after (λ _ w'. Kept w w') (λ _ w'. Kept w w')
        (open_input (cat t.staging_path "/input") e w) _
        (open_input-Kept (cat t.staging_path "/input") w) (λ x w' h. h)
        λ file w₁ h₁.
          Post-mono (send_chunks t file t.total_chunks 0 e w₁) (λ _ w' h. Kept-trans w w₁ w' h₁ h)
            (λ _ w' h. Kept-trans w w₁ w' h₁ h) (send_chunks-Kept file t.total_chunks 0 w₁)

module _ (base_url staging_dir : String) (input : DispatchOperationInput) (op : Operation)
    (t : FileTransfer) (plan : Plan) (e : Env) (w : World) where
  -- The tables of a dispatch that returns.
  abbrev pub Done : DispatchOperationOutput → World → Type 0
  Done out w' =
      (w'.db.operations ≡ rows_after (dispatched_operation op plan out.updated_at) w.db.operations)
      × (w'.db.jobs
          ≡ Jobs.inserted_job (dispatched_job op plan input.processor out.updated_at) ∷ w.db.jobs)
      × (w'.db.attempts ≡ Attempts.inserted_attempt (dispatched_attempt op plan) ∷ w.db.attempts)
      × (w'.db.transfers ≡ Transfers.inserted_transfer t ∷ w.db.transfers)
      × (out.worker_node_id ≡ plan.worker_node_id)
      × (out.job_id ≡ plan.job_id)
      × (out.attempt_id ≡ plan.attempt_id)
      × (out.version ≡ suc op.version)

  -- One that fails has changed no operation, or has failed behind the update.
  abbrev pub Cut : Error → World → Type 0
  Cut x w' =
      (w'.db.operations ≡ w.db.operations)
      ⊎ ((at : ℕ) × (w'.db.operations
            ≡ rows_after (dispatched_operation op plan at) w.db.operations))

  version_of : (at : ℕ) → (dispatched_operation op plan at).version ≡ suc op.version
  unfolding dispatched_operation
  version_of at = refl

  -- Behind the second command only the transfer is there.
  abbrev Sent : World → Type 0
  Sent w' =
      (w'.db.operations ≡ w.db.operations)
      × (w'.db.jobs ≡ w.db.jobs)
      × (w'.db.attempts ≡ w.db.attempts)
      × (w'.db.transfers ≡ Transfers.inserted_transfer t ∷ w.db.transfers)

  Sent-Kept : (v v' : World) → Sent v → Kept v v' → Sent v'
  Sent-Kept v v' h k = (k.0 ∙ h.0, k.1 ∙ h.1, k.2 ∙ h.2, k.3 ∙ h.3)

  record-Post :
      (v : World)
      → Sent v
      → Post (record_dispatch base_url staging_dir input op t plan e v) Done Cut
  unfolding record_dispatch now generate_id
  record-Post v s =
      let at = e.clock v.calls in
      let v₁ = counted v in
      let new_op = dispatched_operation op plan at in
      Post-after Done Cut (Jobs.create (dispatched_job op plan input.processor at) e v₁) _
        (Posts.jobs-create e v₁ _) (λ x w' h. inl (ground arith))
        λ _ v₂ h₂.
          Post-after Done Cut (Attempts.create (dispatched_attempt op plan) e v₂) _
            (Posts.attempts-create e v₂ _) (λ x w' h. inl (ground arith))
            λ _ v₃ h₃.
              Post-after Done Cut (Operations.update new_op e v₃) _
                (Posts.operations-update e v₃ new_op)
                (λ x w' h. elim h.1 [
                  | inl left ↦ inl (ground arith)
                  | inr right ↦ inr (at, ground arith)
                ])
                λ _ v₄ h₄.
                  Post-ignored Done Cut
                    (λ w'.
                      (w'.db.operations ≡ v₄.db.operations)
                      × (w'.db.jobs ≡ v₄.db.jobs)
                      × (w'.db.attempts ≡ v₄.db.attempts)
                      × (w'.db.transfers ≡ v₄.db.transfers))
                    (Events.append _) e (counted v₄) _ (Posts.events-append e (counted v₄) _)
                    (λ _ w' h. ground arith) (λ x w' h. ground arith)
                    λ _ v₅ h₅. (
                      ground arith,
                      ground arith,
                      ground arith,
                      ground arith,
                      refl,
                      refl,
                      refl,
                      version_of at,
                    )

  pub send-Post :
      (v : World)
      → v.db ≡ w.db
      → Post (send_dispatch base_url staging_dir input op t plan e v) Done Cut
  unfolding send_dispatch
  send-Post v same =
      Post-after Done Cut (Transfers.create t e v) _ (Posts.transfers-create e v t)
        (λ x w' h. inl (ground arith))
        λ _ v₁ h₁.
          let s₁ : Sent v₁ = (ground arith, ground arith, ground arith, ground arith) in
          Post-after Done Cut
            (publish_command plan.worker_node_id (start_transfer e.rfc3339 plan t) e v₁) _
            (publish-Kept plan.worker_node_id (start_transfer e.rfc3339 plan t) e v₁)
            (λ x w' h. inl (Sent-Kept v₁ w' s₁ h).0)
            λ _ v₂ h₂.
              let s₂ : Sent v₂ = Sent-Kept v₁ v₂ s₁ h₂ in
              Post-ignored Done Cut Sent (publish_file_chunks t) e v₂ _
                (publish_file_chunks-Kept t e v₂) (λ _ w' h. Sent-Kept v₂ w' s₂ h)
                (λ x w' h. Sent-Kept v₂ w' s₂ h)
                λ _ v₃ s₃.
                  Post-after Done Cut
                    (publish_command plan.worker_node_id (process_update plan op input.processor) e
                      v₃)
                    _
                    (publish-Kept plan.worker_node_id (process_update plan op input.processor) e v₃)
                    (λ x w' h. inl (Sent-Kept v₃ w' s₃ h).0)
                    λ _ v₄ h₄. record-Post v₄ (Sent-Kept v₃ v₄ s₃ h₄)
