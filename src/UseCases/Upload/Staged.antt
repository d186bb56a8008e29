-- ===== src/UseCases/Upload/Staged.antt =====
-- file.go: what an upload leaves in the staging directory and in the table of the operations.
use update_service.Base.{
  ℕ, zero, suc, ◌+◌, ◌≤◌, ◌≡◌, ◌∙◌, ◌⊎◌, inl, inr, refl, ap, Bool-cases, String, true, false, some,
  List, [], ◌∷◌, arith, ltb, str_eq_refl, length, take, length-take,
}
use update_service.Domain.Operation.{Operation, created, same_status}
use update_service.Domain.Transition.Diagram.{same_status→≡}
use update_service.Effect.{Error, Env, World, Outcome, after, call, now, counted}
use update_service.Effect.Tables.{OperationRow}
use update_service.Effect.Post.{Post, Post-after, Post-ignored, Post-call, Post-mono}
use update_service.Repositories.Operations
use update_service.Repositories.Operations.{null_if_empty, row_to_operation, updated_row, scanned}
use update_service.Repositories.Operations.Locking.{row_of, rows_after}
use update_service.Repositories.Events
use update_service.Repositories.Posts
use update_service.Transfer.Bytes.{bytes_at}
use update_service.Transfer.Sender.{header}
use update_service.UseCases.Upload.{
  FileOperationInput, FileOperationOutput, uploaded, digest_fits, move_file, input_path, stage_file,
  receive_file, upload_loaded, execute,
}

take_all : (n : ℕ) (xs : List ℕ) → length xs ≤ n → take n xs ≡ xs
take_all zero [] h = refl
take_all zero (x ∷ xs) h = absurd (omega (arith, h))
take_all (suc n) [] h = refl
take_all (suc n) (x ∷ xs) h = ap (◌∷◌ x) (take_all n xs (omega (arith, h)))

module _ (staging_dir : String) (max_file_size : ℕ) (base_url : String) (input : FileOperationInput)
    (row : OperationRow) (e : Env) (w : World) where
  abbrev pub written : List ℕ → ℕ → Operation
  written content at =
      uploaded (row_to_operation row) content (e.sha256 content)
        (header "X-File-Name" input.headers) at

  -- The content is in the staging directory.
  abbrev Staged : List ℕ → World → Type 0
  Staged content w' =
      bytes_at (input_path staging_dir max_file_size base_url input.operation_id) w'.files
      ≡ some content

  -- The file and the table of a stored upload.
  abbrev pub Stored : List ℕ → ℕ → World → Type 0
  Stored content at w' =
      Staged content w' × (w'.db.operations ≡ rows_after (written content at) w.db.operations)

  abbrev P : List ℕ → FileOperationOutput → World → Type 0
  P content out w' = Stored content out.updated_at w' × (out.version ≡ suc row.version)

  abbrev Q : List ℕ → Error → World → Type 0
  Q content x w' = (w'.db.operations ≡ w.db.operations) ⊎ ((at : ℕ) × Stored content at w')

  Staged-again :
      (content : List ℕ) (v u : World) → v.files ≡ u.files → Staged content u → Staged content v
  Staged-again content v u same h =
      ap (bytes_at (input_path staging_dir max_file_size base_url input.operation_id)) same ∙ h

  move-Post :
      (content : List ℕ) (w₁ : World)
      → Post
          (move_file
            (input_path staging_dir max_file_size base_url input.operation_id)
            content
            e
            w₁)
          (λ _ w'. Staged content w' × (w'.db ≡ w₁.db))
          (λ _ w'. w'.db ≡ w₁.db)
  unfolding move_file
  move-Post content w₁ = elim (Bool-cases (e.fails w₁.calls)) [
    | inl bad ↦ rw bad refl
    | inr good ↦
        rw (good, str_eq_refl (input_path staging_dir max_file_size base_url input.operation_id))
          (refl, refl)
  ]

  output :
      (content : List ℕ) (at : ℕ)
      → ((written content at).updated_at ≡ at) × ((written content at).version ≡ suc row.version)
  unfolding uploaded row_to_operation
  output content at = (refl, refl)

  stage_file-Post :
      (content : List ℕ) (w₁ : World)
      → w₁.db ≡ w.db
      → Post
          (stage_file staging_dir max_file_size base_url input
            (row_to_operation row)
            content
            (e.sha256 content)
            e
            w₁)
          (P content)
          (Q content)
  unfolding stage_file now
  stage_file-Post content w₁ same =
      Post-after (P content) (Q content) (move_file _ content e w₁) _ (move-Post content w₁)
        (λ x w' h. inl (rw (h, same) refl))
        λ _ w₂ h₂.
          let at = e.clock w₂.calls in
          let op = written content at in
          let Both : World → Type 0 = Stored content at in
          Post-after (P content) (Q content) (Operations.update op e (counted w₂)) _
            (Posts.operations-update e (counted w₂) op)
            (λ x w' h. elim h.1 [
              | inl left ↦ inl (ground arith)
              | inr right ↦ inr (at, (Staged-again content w' w₂ right.1 h₂.0, ground arith))
            ])
            λ _ w₃ h₃.
              Post-ignored (P content) (Q content) Both (Events.append _) e (counted w₃) _
                (Posts.events-append e (counted w₃) _)
                (λ _ w' h. (Staged-again content w' w₂ (h.1 ∙ h₃.1) h₂.0, ground arith))
                (λ x w' h. (Staged-again content w' w₂ (h.1 ∙ h₃.1) h₂.0, ground arith))
                λ _ w₄ h₄. (rw (output content at).0 h₄, (output content at).1)

  -- What the checks of an upload let through.
  abbrev pub IsAccepted : Type 0
  IsAccepted =
      (row.status ≡ created)
      × (length input.body ≤ max_file_size)
      × (digest_fits (header "Digest" input.headers) (e.sha256 input.body) ≡ true)

  abbrev pub Done : FileOperationOutput → World → Type 0
  Done out w' = IsAccepted × P input.body out w'

  abbrev pub Refused : Error → World → Type 0
  Refused x w' =
      (w'.db.operations ≡ w.db.operations) ⊎ (IsAccepted × ((at : ℕ) × Stored input.body at w'))

  -- A call before the upload is stored: if it fails, no operation has changed.
  after_call :
      (k : World → Outcome FileOperationOutput) (w₁ : World)
      → w₁.db ≡ w.db
      → ((w' : World) → w'.db ≡ w.db → Post (k w') Done Refused)
      → Post (after (call e w₁) (λ _ w'. k w')) Done Refused
  after_call k w₁ same next =
      Post-after Done Refused (call e w₁) (λ _ w'. k w') (Post-call e w₁)
        (λ x w' h. inl (rw (h.1, same) refl)) (λ _ w' h. next w' (rw h same))

  checked-Post :
      (w₁ : World)
      → w₁.db ≡ w.db
      → row.status ≡ created
      → Post
          (receive_file staging_dir max_file_size base_url input (row_to_operation row) e w₁)
          Done
          Refused
  unfolding receive_file
  checked-Post w₁ same status = after_call _ w₁ same λ w₂ same₂. after_call _ w₂ same₂ λ w₃ same₃.
      after_call _ w₃ same₃ λ w₄ same₄. elim (Bool-cases (ltb max_file_size (length content))) [
        | inl large ↦ rw large (inl (rw same₄ refl))
        | inr fits ↦
            rw (fits, whole fits)
              (elim (Bool-cases
                (digest_fits (header "Digest" input.headers) (e.sha256 input.body))) [
                  | inr wrong ↦ rw wrong (inl (rw same₄ refl))
                  | inl right ↦ rw right (
                      Post-mono
                        (stage_file staging_dir max_file_size base_url input (row_to_operation row)
                          input.body (e.sha256 input.body) e w₄)
                        (λ out w' h. ((status, small fits, right), h))
                        (λ x w' h. elim h [
                          | inl left ↦ inl left
                          | inr stored ↦ inr ((status, small fits, right), stored)
                        ])
                        (stage_file-Post input.body w₄ same₄))
                ])
      ]
    where
      content : List ℕ
      content = take (max_file_size + 1) input.body

      small : ltb max_file_size (length content) ≡ false → length input.body ≤ max_file_size
      small fits = ground (arith, fits, length-take (max_file_size + 1) input.body)

      whole :
          ltb max_file_size (length content) ≡ false
          → take (max_file_size + 1) input.body ≡ input.body
      whole fits = take_all (max_file_size + 1) input.body (omega (arith, small fits))

-- In terms of the whole table.
pub upload-rows :
    (staging_dir : String) (max_file_size : ℕ) (base_url : String) (input : FileOperationInput)
    (row : OperationRow) (e : Env) (w : World)
    → row_of input.operation_id w ≡ some row
    → Post
        (execute staging_dir max_file_size base_url input e w)
        (Done staging_dir max_file_size base_url input row e w)
        (Refused staging_dir max_file_size base_url input row e w)
unfolding execute upload_loaded Operations.get_by_id row_to_operation
upload-rows staging_dir max_file_size base_url input row e w found =
    elim (Bool-cases (e.fails w.calls)) [
      | inl bad ↦ rw bad (inl refl)
      | inr good ↦
          rw (good, found)
            (elim (Bool-cases (same_status row.status created)) [
              | inr other_status ↦ rw other_status (inl refl)
              | inl fresh ↦ rw fresh (
                  checked-Post staging_dir max_file_size base_url input row e w (counted w) refl
                    (same_status→≡ row.status created fresh))
            ])
    ]
