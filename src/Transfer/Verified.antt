-- ===== src/Transfer/Verified.antt =====
-- receiver.go: what `FinalizeTransfer` has checked when it reports no error.
use update_service.Base.{
  ℕ, ◌≡◌, refl, inl, inr, Bool-cases, String, false, Option, none, some, List, arith, ◌==◌, str_eq,
  eq_iff, length,
}
use update_service.Domain.Job.{FileTransfer, transfer_completed}
use update_service.Domain.Json.{Json}
use update_service.Domain.Event.{OperationEvent}
use update_service.Effect.{Error, Env, World, Content, M, Outcome, call, now, counted}
use update_service.Effect.Post.{Post, Post-ignored, Post-mono}
use update_service.Repositories.Transfers
use update_service.Repositories.Events
use update_service.Repositories.Posts
use update_service.Transfer.Sender.{publish_event}
use update_service.Transfer.Active.{ActiveTransfer, content_of}
use update_service.Transfer.Receiver.{Finalized, or_stop, write_file, finish, finalize}
use update_service.Transfer.Kept.{or_stop-Post, publish-files}

-- A finalisation without an error has found the size and the digest that were announced, has closed
-- the file and has completed the transfer.
abbrev pub Verified :
    (List ℕ → String) → ActiveTransfer → List ℕ → ActiveTransfer → Option Error → Type 0
Verified sha256 a content b none =
    (length content ≡ a.total_bytes)
    × (sha256 content ≡ a.file_sha256)
    × (b.is_open ≡ false)
    × (b.transfer.status ≡ transfer_completed)
Verified sha256 a content b (some x) = Unit

-- None of the calls panics.
abbrev Returned : Outcome (Unit {0}) → Type 0
Returned o = Post o (λ _ _. Unit {0}) (λ _ _. Unit {0})

call-Returned : (e : Env) (w : World) → Returned (call e w)
unfolding call
call-Returned e w = ground arith

update-Returned : (t : FileTransfer) (e : Env) (w : World) → Returned (Transfers.update t e w)
unfolding Transfers.update
update-Returned t e w = ground arith

pub write_file-Returned :
    (path : String) (c : Content) (e : Env) (w : World) → Returned (write_file path c e w)
unfolding write_file
write_file-Returned path c e w = ground arith

pub append-Returned :
    (evt : OperationEvent) (e : Env) (w : World) → Returned (Events.append evt e w)
append-Returned evt e w =
    Post-mono (Events.append evt e w) (λ _ _ _. tt) (λ _ _ _. tt) (Posts.events-append e w evt)

pub publish-Returned : (event : Json) (e : Env) (w : World) → Returned (publish_event event e w)
publish-Returned event e w =
    Post-mono (publish_event event e w) (λ _ _ _. tt) (λ _ _ _. tt) (publish-files event e w)

module _ (node_id : String) (a : ActiveTransfer) (e : Env) (content : List ℕ) where
  abbrev V : Finalized → World → Type 0
  V d w = Verified e.sha256 a content d.active d.error

  finish-Verified :
      (transfer_id checksum : String) (w : World)
      → length content ≡ a.total_bytes
      → e.sha256 content ≡ a.file_sha256
      → Post (finish node_id a transfer_id checksum e w) V (λ _ _. ⊥)
  unfolding finish now
  finish-Verified transfer_id checksum w size digest =
      or_stop-Post V (λ _. Unit {0}) call a _ e w (call-Returned e w) (λ w' k. tt)
        λ w₁ h₁.
          or_stop-Post V (λ _. Unit {0}) (Transfers.update _) _ _ e (counted w₁)
            (update-Returned _ e (counted w₁)) (λ w' k. tt)
            λ w₂ h₂.
              Post-ignored V (λ _ _. ⊥) (λ _. Unit {0}) (write_file a.manifest_path _) e w₂ _
                (write_file-Returned a.manifest_path _ e w₂) (λ _ _ _. tt) (λ _ _ _. tt)
                λ _ w₃ h₃.
                  Post-ignored V (λ _ _. ⊥) (λ _. Unit {0}) (Events.append _) e (counted w₃) _
                    (append-Returned _ e (counted w₃)) (λ _ _ _. tt) (λ _ _ _. tt)
                    λ _ w₄ h₄.
                      Post-ignored V (λ _ _. ⊥) (λ _. Unit {0}) (publish_event _) e w₄ _
                        (publish-Returned _ e w₄) (λ _ _ _. tt) (λ _ _ _. tt)
                        λ _ w₅ h₅. (size, digest, refl, refl)

call-content :
    (path : String) (content : List ℕ) (e : Env) (w : World)
    → content_of path w ≡ content
    → Post (call e w) (λ _ v. content_of path v ≡ content) (λ _ v. content_of path v ≡ content)
unfolding call
call-content path content e w h = ground arith

pub finalize-Verified :
    (node_id transfer_id : String) (a : ActiveTransfer) (e : Env) (w : World)
    → Post
        (finalize node_id a transfer_id e w)
        (λ d _. Verified e.sha256 a (content_of a.path w) d.active d.error)
        (λ _ _. ⊥)
unfolding finalize
finalize-Verified node_id transfer_id a e w = step w _ refl λ w₁ h₁. step w₁ _ h₁ λ w₂ h₂.
    rw h₂ (elim (Bool-cases (length content == a.total_bytes)) [
      | inr bad ↦ rw bad tt
      | inl good ↦ rw good (
          step w₂ _ h₂ λ w₃ h₃. step w₃ _ h₃ λ w₄ h₄.
            elim (Bool-cases (str_eq (e.sha256 content) a.file_sha256)) [
              | inr wrong ↦ rw wrong tt
              | inl right ↦ rw right (
                  finish-Verified node_id a e content transfer_id (e.sha256 content) w₄
                    (ground (arith, good)) ((eq_iff (e.sha256 content) a.file_sha256).0 right))
            ])
    ])
  where
    content : List ℕ
    content = content_of a.path w

    R : World → Type 0
    R w' = content_of a.path w' ≡ content

    kept : (w' : World) → R w' → Post (call e w') (λ _ v. R v) (λ _ v. R v)
    kept w' h = call-content a.path content e w' h

    step :
        (w' : World) (rest : M Finalized)
        → R w'
        → ((v : World) → R v → Post (rest e v) (V node_id a e content) (λ _ _. ⊥))
        → Post (or_stop call a rest e w') (V node_id a e content) (λ _ _. ⊥)
    step w' rest h next =
        or_stop-Post (V node_id a e content) R call a rest e w' (kept w' h) (λ v k. tt) next
