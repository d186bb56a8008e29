-- ===== src/Transfer/Accepting.antt =====
-- receiver.go: `AcceptTransfer` returns while no call to the outside fails.
use update_service.Base.{
  ◌≡◌, inl, inr, Bool-cases, String, true, some, ◌==◌, ltb, str_eq, str_eq_refl, find_key,
}
use update_service.Domain.Json.{Fields, member, as_string}
use update_service.Domain.Job.{FileTransfer}
use update_service.Effect.{Env, World, Outcome, counted, call, after, now, IsReliable}
use update_service.Effect.Post.{Post, Post-after, Post-mono}
use update_service.Repositories.Transfers
use update_service.Transfer.Active.{ActiveTransfer}
use update_service.Transfer.Accept.{
  open_file, truncate_file, prepare_file, subscribe, accepted, start_active, accept_transfer,
}
use update_service.Transfer.Receiver.{finalize}
use update_service.Transfer.Verified.{finalize-Verified}
use update_service.Transfer.Accepted.{path, size}

-- An action that always returns.
abbrev Works : {A : Type 0} → Outcome A → Type 0
Works o = Post o (λ _ _. Unit {0}) (λ _ _. ⊥)

module _ (node_id staging_dir : String) (cmd : Fields) (e : Env) (works : IsReliable e) where
  call-Works : (w : World) → Works (call e w)
  unfolding call
  call-Works w = rw (works w.calls) tt

  after-Works :
      {A B : Type 0} (o : Outcome A) (k : A → World → Outcome B)
      → Works o
      → ((a : A) (w : World) → Works (k a w))
      → Works (after o k)
  after-Works o k h next =
      Post-after (λ _ _. Unit) (λ _ _. ⊥) o k h (λ _ _ b. b) (λ a w _. next a w)

  prepare-Works : (w : World) → Works (prepare_file node_id staging_dir cmd e w)
  unfolding prepare_file open_file truncate_file
  prepare-Works w = after-Works (call e w) _ (call-Works w) λ _ w₁.
      after-Works (open_file (path node_id staging_dir cmd e) e w₁) _
        (after-Works (call e w₁) _ (call-Works w₁) (λ _ _. tt))
        λ _ w₂. elim (Bool-cases (ltb 0 (size node_id staging_dir cmd e))) [
          | inr none_there ↦ rw none_there tt
          | inl some_there ↦ rw some_there (after-Works (call e w₂) _ (call-Works w₂) (λ _ _. tt))
        ]

  start-Works :
      (id : String) (a : ActiveTransfer) (w : World)
      → Works (start_active node_id staging_dir id a e w)
  unfolding start_active
  start-Works id a w = elim (Bool-cases (a.total_chunks == 0)) [
    | inr more ↦ rw more tt
    | inl over ↦ rw over (
        after-Works (finalize node_id a id e w) _
          (Post-mono (finalize node_id a id e w) (λ _ _ _. tt) (λ x w' h. h)
            (finalize-Verified node_id id a e w))
          (λ d w'. tt))
  ]

  -- While no call fails, a transfer that is stored for this node is accepted.
  pub accept_transfer-Works :
      (t : FileTransfer) (w : World)
      → find_key FileTransfer.id (as_string (member "transfer_id" cmd)) w.db.transfers ≡ some t
      → t.destination_node_id ≡ node_id
      → Works (accept_transfer node_id staging_dir cmd e w)
  unfolding accept_transfer Transfers.get_by_id Transfers.update subscribe now
  accept_transfer-Works t w found own =
      let mine : str_eq t.destination_node_id node_id ≡ true = rw own (str_eq_refl node_id) in
      rw (works w.calls, found, mine)
        (after-Works (prepare_file node_id staging_dir cmd e (counted w)) _
          (prepare-Works (counted w))
          λ _ w₁.
            after-Works (Transfers.update (accepted t (e.clock w₁.calls)) e (counted w₁)) _
              (after-Works (call e (counted w₁)) _ (call-Works (counted w₁)) (λ _ _. tt))
              λ _ w₂.
                after-Works (subscribe e w₂) _
                  (after-Works (call e w₂) _ (call-Works w₂) (λ _ w₃. call-Works w₃))
                  λ _ w₃. start-Works (as_string (member "transfer_id" cmd)) _ w₃)
