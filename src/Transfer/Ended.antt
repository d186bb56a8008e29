-- ===== src/Transfer/Ended.antt =====
-- receiver.go: while no call to the outside fails, the last chunk of a file ends its transfer.
use update_service.Base.{
  ℕ, ◌≡◌, ◌⊎◌, ◌∙◌, inl, inr, refl, subst, Bool-cases, String, true, false, none, List, arith, ◌==◌,
  str_eq, str_eq_refl, length, update_where,
}
use update_service.Domain.Job.{FileTransfer, transfer_completed}
use update_service.Effect.{Error, Env, World, M, ok, call, now, counted, attempt, IsReliable}
use update_service.Effect.Post.{Post, Post-after, Post-ignored, Post-both, Post-mono}
use update_service.Effect.Tables.{Db}
use update_service.Repositories.Chunks
use update_service.Repositories.Events
use update_service.Repositories.Transfers
use update_service.Transfer.Sender.{publish_event}
use update_service.Transfer.Active.{ActiveTransfer, ChunkMessage, with_chunk, content_of}
use update_service.Transfer.Receiver.{
  Finalized, or_stop, write_file, finish, finalize, chunk_stored,
}
use update_service.Transfer.Kept.{upsert-R, append-R, publish-R, finalize-Post}
use update_service.Transfer.Verified.{
  Verified, finalize-Verified, write_file-Returned, append-Returned, publish-Returned,
}

-- A step that succeeds goes on.
or_stop-ok :
    (P : Finalized → World → Type 0) (m : M (Unit {0})) (active : ActiveTransfer)
    (rest : M Finalized) (e : Env) (w w' : World)
    → m e w ≡ ok tt w'
    → Post (rest e w') P (λ _ _. ⊥)
    → Post (or_stop m active rest e w) P (λ _ _. ⊥)
unfolding attempt
or_stop-ok P m active rest e w w' works h = rw works h

module _ (node_id : String) (a : ActiveTransfer) (e : Env) (works : IsReliable e) where
  call_works : (w : World) → call e w ≡ ok tt (counted w)
  unfolding call
  call_works w = rw (works w.calls) refl

  update_works :
      (t : FileTransfer) (w : World)
      → (db : Db) × (Transfers.update t e w ≡ ok tt (record (counted w) { db = db }))
  unfolding Transfers.update
  update_works t w = (
    record w.db {
      transfers =
          update_where (Transfers.is_same_version t) (Transfers.updated_transfer t) w.db.transfers;
    },
    rw (works w.calls) refl,
  )

  abbrev IsDone : Finalized → World → Type 0
  IsDone d w = d.error ≡ none

  finish-IsDone :
      (transfer_id checksum : String) (w : World)
      → Post (finish node_id a transfer_id checksum e w) IsDone (λ _ _. ⊥)
  unfolding finish now
  finish-IsDone transfer_id checksum w = or_stop-ok IsDone call a _ e w (counted w) (call_works w) (
      or_stop-ok IsDone (Transfers.update _) _ _ e (counted (counted w)) _
        (update_works _ (counted (counted w))).1
        (Post-ignored IsDone (λ _ _. ⊥) (λ _. Unit {0}) (write_file a.manifest_path _) e _ _
          (write_file-Returned a.manifest_path _ e _) (λ _ _ _. tt) (λ _ _ _. tt)
          λ _ w₃ h₃.
            Post-ignored IsDone (λ _ _. ⊥) (λ _. Unit {0}) (Events.append _) e (counted w₃) _
              (append-Returned _ e (counted w₃)) (λ _ _ _. tt) (λ _ _ _. tt)
              λ _ w₄ h₄.
                Post-ignored IsDone (λ _ _. ⊥) (λ _. Unit {0}) (publish_event _) e w₄ _
                  (publish-Returned _ e w₄) (λ _ _ _. tt) (λ _ _ _. tt) λ _ w₅ h₅. refl))

  finalize-IsDone :
      (transfer_id : String) (w : World)
      → (length (content_of a.path w) == a.total_bytes) ≡ true
      → str_eq (e.sha256 (content_of a.path w)) a.file_sha256 ≡ true
      → Post (finalize node_id a transfer_id e w) IsDone (λ _ _. ⊥)
  unfolding finalize
  finalize-IsDone transfer_id w size digest = or_stop-ok IsDone call a _ e w _ (call_works w) (
      or_stop-ok IsDone call a _ e _ _ (call_works (counted w)) (
        rw size (
          or_stop-ok IsDone call a _ e _ _ (call_works (counted (counted w))) (
            or_stop-ok IsDone call a _ e _ _ (call_works (counted (counted (counted w)))) (
              rw digest (
                finish-IsDone transfer_id (e.sha256 (content_of a.path w))
                  (counted (counted (counted (counted w))))))))))

module _ (node_id : String) (active : ActiveTransfer) (m : ChunkMessage) (file : List ℕ)
    (apart : str_eq active.manifest_path active.path ≡ false) (e : Env) (works : IsReliable e)
    (size : length file ≡ active.total_bytes) (digest : e.sha256 file ≡ active.file_sha256) where
  abbrev grown : ActiveTransfer
  grown = with_chunk active m

  -- What a chunk leaves: the transfer goes on with it, or it was the last one and has ended it.
  abbrev pub IsNext : ActiveTransfer → World → Type 0
  IsNext b w =
      (((length grown.received == active.total_chunks) ≡ false) × (b ≡ grown))
      ⊎ (((length grown.received == active.total_chunks) ≡ true)
          × (b.received ≡ grown.received)
          × (b.is_open ≡ false)
          × (b.transfer.status ≡ transfer_completed))

  last-IsNext :
      (w : World)
      → content_of active.path w ≡ file
      → (length grown.received == active.total_chunks) ≡ true
      → Post (finalize node_id grown m.transfer_id e w) (λ d w'. IsNext d.active w') (λ _ _. ⊥)
  last-IsNext w content last =
      let o = finalize node_id grown m.transfer_id e w in
      let Q : Error → World → Type 0 = λ _ _. ⊥ in
      Post-mono o
        (λ d w' h.
          let v = subst (Verified e.sha256 grown file d.active) h.1.0 h.0 in
          inr (last, h.1.1.2, v.2, v.3))
        (λ x w' h. h.0)
        (Post-both _ _ Q _ o (rw content at (finalize-Verified node_id m.transfer_id grown e w)) (
          Post-both _ _ Q Q o
            (finalize-IsDone node_id grown e works m.transfer_id w
              (rw content (ground (arith, size)))
              (rw (content, digest) (str_eq_refl active.file_sha256)))
            (finalize-Post node_id grown apart file m.transfer_id e w content)))

  abbrev S : World → Type 0
  S w = content_of active.path w ≡ file

  -- The chunk that completes the file ends the transfer; any other leaves it open.
  pub chunk_stored-IsNext :
      (w : World)
      → ((length grown.received == active.total_chunks) ≡ true → content_of active.path w ≡ file)
      → Post (chunk_stored node_id active m e w) IsNext (λ _ _. ⊥)
  unfolding chunk_stored now
  chunk_stored-IsNext w full =
      let R : World → Type 0 = λ w'. content_of active.path w' ≡ content_of active.path w in
      Post-ignored IsNext (λ _ _. ⊥) R (Chunks.upsert _) e w _
        (upsert-R node_id grown apart (content_of active.path w) _ e w refl) (λ _ w' k. k)
        (λ x w' k. k)
        λ _ w₁ h₁.
          let w₂ = counted (counted w₁) in
          Post-ignored IsNext (λ _ _. ⊥) R (Events.append _) e w₂ _
            (append-R node_id grown apart (content_of active.path w) _ e w₂ h₁) (λ _ w' k. k)
            (λ x w' k. k)
            λ _ w₃ h₃.
              Post-ignored IsNext (λ _ _. ⊥) R (publish_event _) e w₃ _
                (publish-R node_id grown apart (content_of active.path w) _ e w₃ h₃) (λ _ w' k. k)
                (λ x w' k. k)
                λ _ w₄ h₄. elim (Bool-cases (length grown.received == active.total_chunks)) [
                  | inr more ↦ rw more (inl (more, refl))
                  | inl last ↦ rw last (
                      Post-after IsNext (λ _ _. ⊥) (finalize node_id grown m.transfer_id e w₄) _
                        (last-IsNext w₄ (h₄ ∙ full last) last) (λ x w' k. k) (λ d w' k. k))
                ]
