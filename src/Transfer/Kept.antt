-- ===== src/Transfer/Kept.antt =====
-- receiver.go: nothing but the write of a chunk changes the file that is put together.
use update_service.Base.{
  ℕ, ◌≡◌, ◌∙◌, refl, ap, inl, inr, Bool-cases, String, false, some, List, arith, ◌==◌, str_eq,
  length,
}
use update_service.Domain.Job.{FileTransfer, FileChunk}
use update_service.Domain.Json.{Json}
use update_service.Domain.Event.{OperationEvent}
use update_service.Effect.{
  external, Env, World, Content, M, Outcome, ok, err, panic, call, now, attempt, counted,
}
use update_service.Effect.Post.{Post, Post-after, Post-ignored, Post-mono}
use update_service.Repositories.Transfers
use update_service.Repositories.Chunks
use update_service.Repositories.Events
use update_service.Repositories.Posts
use update_service.Transfer.Bytes.{bytes_at}
use update_service.Transfer.Sender.{publish_event}
use update_service.Transfer.Active.{ActiveTransfer, ChunkMessage, with_chunk, or_empty, content_of}
use update_service.Transfer.Receiver.{
  Finalized, or_stop, write_file, finish, finalize, chunk_stored,
}

pub same_content :
    (path : String) (v w : World) → v.files ≡ w.files → content_of path v ≡ content_of path w
same_content path v w h = ap (λ fs. or_empty (bytes_at path fs)) h

pub publish-files :
    (event : Json) (e : Env) (w : World)
    → Post (publish_event event e w) (λ _ w'. w'.files ≡ w.files) (λ _ w'. w'.files ≡ w.files)
unfolding publish_event
publish-files event e w = ground arith

-- A step that may end the finalisation: `R` holds behind it, whether it fails or not.
pub or_stop-Post :
    (P : Finalized → World → Type 0) (R : World → Type 0) (m : M (Unit {0}))
    (active : ActiveTransfer) (rest : M Finalized) (e : Env) (w : World)
    → Post (m e w) (λ _ w'. R w') (λ _ w'. R w')
    → ((w' : World) → R w' → P (record { active = active; error = some external }) w')
    → ((w' : World) → R w' → Post (rest e w') P (λ _ _. ⊥))
    → Post (or_stop m active rest e w) P (λ _ _. ⊥)
unfolding attempt
or_stop-Post P R m active rest e w h stopped next = go (m e w) h
  where
    go :
        (o : Outcome (Unit {0}))
        → Post o (λ _ w'. R w') (λ _ w'. R w')
        → Post (or_stop (λ _ _. o) active rest e w) P (λ _ _. ⊥)
    go (ok a w') h = next w' h
    go (err x w') h = stopped w' h
    go (panic w') h = h

module _ (node_id : String) (a : ActiveTransfer) (apart : str_eq a.manifest_path a.path ≡ false)
    (content : List ℕ) where
  -- The file has its content.
  abbrev R : World → Type 0
  R w = content_of a.path w ≡ content

  -- So it has after the finalisation, and the chunks are as before.
  abbrev P : Finalized → World → Type 0
  P d w =
      R w
      × (d.active.path ≡ a.path)
      × (d.active.received ≡ a.received)
      × (d.active.manifest_path ≡ a.manifest_path)

  pub call-R : (e : Env) (w : World) → R w → Post (call e w) (λ _ w'. R w') (λ _ w'. R w')
  unfolding call
  call-R e w h = ground arith

  manifest-R :
      (c : Content) (e : Env) (w : World)
      → R w
      → Post (write_file a.manifest_path c e w) (λ _ w'. R w') (λ _ w'. R w')
  unfolding write_file call
  manifest-R c e w h = ground (arith, apart)

  update-R :
      (t : FileTransfer) (e : Env) (w : World)
      → R w
      → Post (Transfers.update t e w) (λ _ w'. R w') (λ _ w'. R w')
  unfolding Transfers.update
  update-R t e w h = ground arith

  pub append-R :
      (evt : OperationEvent) (e : Env) (w : World)
      → R w
      → Post (Events.append evt e w) (λ _ w'. R w') (λ _ w'. R w')
  append-R evt e w h =
      Post-mono (Events.append evt e w) (λ _ w' k. same_content a.path w' w k.1 ∙ h)
        (λ x w' k. same_content a.path w' w k.1 ∙ h) (Posts.events-append e w evt)

  pub upsert-R :
      (c : FileChunk) (e : Env) (w : World)
      → R w
      → Post (Chunks.upsert c e w) (λ _ w'. R w') (λ _ w'. R w')
  upsert-R c e w h =
      Post-mono (Chunks.upsert c e w) (λ _ w' k. same_content a.path w' w k.1 ∙ h)
        (λ x w' k. same_content a.path w' w k.1 ∙ h) (Posts.chunks-upsert e w c)

  pub publish-R :
      (event : Json) (e : Env) (w : World)
      → R w
      → Post (publish_event event e w) (λ _ w'. R w') (λ _ w'. R w')
  publish-R event e w h =
      Post-mono (publish_event event e w) (λ _ w' k. same_content a.path w' w k ∙ h)
        (λ x w' k. same_content a.path w' w k ∙ h) (publish-files event e w)

  -- Whichever way the finalisation ends, the file and the chunks are as they were.
  finish-Post :
      (transfer_id checksum : String) (e : Env) (w : World)
      → R w
      → Post (finish node_id a transfer_id checksum e w) P (λ _ _. ⊥)
  unfolding finish now
  finish-Post transfer_id checksum e w h =
      or_stop-Post P R call a _ e w (call-R e w h) (λ w' k. (k, refl, refl, refl))
        λ w₁ h₁.
          or_stop-Post P R (Transfers.update _) _ _ e (counted w₁) (update-R _ e (counted w₁) h₁)
            (λ w' k. (k, refl, refl, refl))
            λ w₂ h₂.
              Post-ignored P (λ _ _. ⊥) R (write_file a.manifest_path _) e w₂ _
                (manifest-R _ e w₂ h₂) (λ _ w' k. k) (λ x w' k. k)
                λ _ w₃ h₃.
                  Post-ignored P (λ _ _. ⊥) R (Events.append _) e (counted w₃) _
                    (append-R _ e (counted w₃) h₃) (λ _ w' k. k) (λ x w' k. k)
                    λ _ w₄ h₄.
                      Post-ignored P (λ _ _. ⊥) R (publish_event _) e w₄ _ (publish-R _ e w₄ h₄)
                        (λ _ w' k. k) (λ x w' k. k) λ _ w₅ h₅. (h₅, refl, refl, refl)

  pub finalize-Post :
      (transfer_id : String) (e : Env) (w : World)
      → R w
      → Post (finalize node_id a transfer_id e w) P (λ _ _. ⊥)
  unfolding finalize
  finalize-Post transfer_id e w h =
      or_stop-Post P R call a _ e w (call-R e w h) (λ w' k. (k, refl, refl, refl))
        λ w₁ h₁.
          or_stop-Post P R call a _ e w₁ (call-R e w₁ h₁) (λ w' k. (k, refl, refl, refl))
            λ w₂ h₂. elim (Bool-cases (length (content_of a.path w₂) == a.total_bytes)) [
              | inr bad ↦ rw bad (h₂, refl, refl, refl)
              | inl good ↦ rw good (
                  or_stop-Post P R call a _ e w₂ (call-R e w₂ h₂) (λ w' k. (k, refl, refl, refl))
                    λ w₃ h₃.
                      or_stop-Post P R call a _ e w₃ (call-R e w₃ h₃)
                        (λ w' k. (k, refl, refl, refl))
                        λ w₄ h₄.
                          elim (Bool-cases
                            (str_eq (e.sha256 (content_of a.path w₂)) a.file_sha256)) [
                              | inr wrong ↦ rw wrong (h₄, refl, refl, refl)
                              | inl right ↦ rw right (finish-Post transfer_id _ e w₄ h₄)
                            ])
            ]

  -- What holds behind a chunk: the file has its content, and the transfer has the chunks of `a`.
  abbrev pub Arrived : ActiveTransfer → World → Type 0
  Arrived b w =
      R w × (b.path ≡ a.path) × (b.received ≡ a.received) × (b.manifest_path ≡ a.manifest_path)

module _ (node_id : String) (active : ActiveTransfer) (m : ChunkMessage)
    (apart : str_eq active.manifest_path active.path ≡ false) (content : List ℕ) where
  abbrev grown : ActiveTransfer
  grown = with_chunk active m

  abbrev S : World → Type 0
  S w = content_of active.path w ≡ content

  pub chunk_stored-Post :
      (e : Env) (w : World)
      → S w
      → Post (chunk_stored node_id active m e w) (Arrived node_id grown apart content) (λ _ _. ⊥)
  unfolding chunk_stored now
  chunk_stored-Post e w h =
      let P' : ActiveTransfer → World → Type 0 = Arrived node_id grown apart content in
      Post-ignored P' (λ _ _. ⊥) S (Chunks.upsert _) e w _
        (upsert-R node_id grown apart content _ e w h) (λ _ w' k. k) (λ x w' k. k)
        λ _ w₁ h₁.
          let w₂ = counted (counted w₁) in
          Post-ignored P' (λ _ _. ⊥) S (Events.append _) e w₂ _
            (append-R node_id grown apart content _ e w₂ h₁) (λ _ w' k. k) (λ x w' k. k)
            λ _ w₃ h₃.
              Post-ignored P' (λ _ _. ⊥) S (publish_event _) e w₃ _
                (publish-R node_id grown apart content _ e w₃ h₃) (λ _ w' k. k) (λ x w' k. k)
                λ _ w₄ h₄. elim (Bool-cases (length grown.received == active.total_chunks)) [
                  | inr more ↦ rw more (h₄, refl, refl, refl)
                  | inl last ↦ rw last (
                      Post-after P' (λ _ _. ⊥) (finalize node_id grown m.transfer_id e w₄) _
                        (finalize-Post node_id grown apart content m.transfer_id e w₄ h₄)
                        (λ x w' k. k) (λ d w' k. k))
                ]
