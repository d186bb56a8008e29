-- ===== src/Transfer/Received.antt =====
-- receiver.go: while no call to the outside fails, no message is lost.
use update_service.Base.{
  if◌then◌else◌, ℕ, ◌⊎◌, ◌*◌, ◌≡◌, refl, inl, inr, Bool, Bool-cases, String, true, false, not, ◌||◌,
  Option, none, some, List, [], ◌∷◌, arith, str_eq, ◌==◌, ==_iff, subst,
}
use update_service.Effect.{Env, World, IsReliable, attempt}
use update_service.Effect.Post.{Post, Post-after, Post-attempt, Post-mono}
use update_service.Transfer.Sender.{Headers, chunk_payload}
use update_service.Transfer.Active.{
  ActiveTransfer, has_chunk, with_chunk, content_of, write_file_at,
}
use update_service.Transfer.Receiver.{chunk_stored, chunk_read, chunk_written, handle_chunk}
use update_service.Transfer.Kept.{chunk_stored-Post}
use update_service.Transfer.Assembly.{sent}
use update_service.Transfer.Delivery.{Tells, handle_sent, deliver}

abbrev pub listed : ℕ → List ℕ → Bool
listed k [] = false
listed k (index ∷ rest) = if index == k then true else listed k rest

-- The chunk has been received, or the file is closed.
abbrev pub IsDone : ℕ → ActiveTransfer → Type 0
IsDone k active = (active.is_open ≡ false) ⊎ (has_chunk k active.received ≡ true)

same_number : (k : ℕ) → (k == k) ≡ true
same_number k = ground arith

has_chunk-same :
    (sha256 : List ℕ → String) (transfer_id : String) (file : List ℕ) (k : ℕ)
    (active : ActiveTransfer)
    → has_chunk k (with_chunk active (sent sha256 transfer_id file k)).received ≡ true
has_chunk-same sha256 transfer_id file k active = rw (same_number k) refl

has_chunk-older :
    (sha256 : List ℕ → String) (transfer_id : String) (file : List ℕ) (index k : ℕ)
    (active : ActiveTransfer)
    → has_chunk k active.received ≡ true
    → has_chunk k (with_chunk active (sent sha256 transfer_id file index)).received ≡ true
has_chunk-older sha256 transfer_id file index k active there = elim (Bool-cases (index == k)) [
  | inl hit ↦ rw hit refl
  | inr miss ↦ rw miss there
]

pub skipped : (opened there : Bool) → not opened || there ≡ true → (opened ≡ false) ⊎ (there ≡ true)
skipped opened there h = ground (arith, h)

pub still_open : (opened there : Bool) → not opened || there ≡ false → opened ≡ true
still_open opened there h = ground (arith, h)

module _ (node_id transfer_id : String) (headers : ℕ → Headers) (file : List ℕ) (e : Env)
    (works : IsReliable e) (tells : Tells e.sha256 transfer_id headers file) where
  -- What one message does: its chunk is done, and so is every chunk that was.
  abbrev Step : ActiveTransfer → ℕ → ActiveTransfer → Type 0
  Step active index b =
      (str_eq b.manifest_path b.path ≡ false)
      × (IsDone index b)
      × ((k : ℕ) → IsDone k active → IsDone k b)

  write-Post :
      (path : String) (offset : ℕ) (payload : List ℕ) (w : World)
      → Post (write_file_at path offset payload e w) (λ _ _. Unit {0}) (λ _ _. ⊥)
  unfolding write_file_at
  write-Post path offset payload w = rw (works w.calls) tt

  -- A write that has been done.
  abbrev IsWritten : Option (Unit {0}) → Type 0
  IsWritten none = ⊥
  IsWritten (some _) = Unit

  written :
      (index : ℕ) (active : ActiveTransfer) (r : Option (Unit {0})) (w : World)
      → str_eq active.manifest_path active.path ≡ false
      → active.is_open ≡ true
      → IsWritten r
      → Post
          (chunk_written node_id active (sent e.sha256 transfer_id file index) r e w)
          (λ b _. Step active index b)
          (λ _ _. ⊥)
  written index active none w apart opened h = absurd h
  written index active (some _) w apart opened h =
      let m = sent e.sha256 transfer_id file index in
      Post-mono (chunk_stored node_id active m e w)
        (λ b v k. (
          rw (k.1, k.3) apart,
          inr (rw k.2 (has_chunk-same e.sha256 transfer_id file index active)),
          λ j before. inr (rw k.2 (older j before)),
        ))
        (λ x v k. k) (chunk_stored-Post node_id active m apart (content_of active.path w) e w refl)
    where
      older :
          (j : ℕ)
          → IsDone j active
          → has_chunk j (with_chunk active (sent e.sha256 transfer_id file index)).received ≡ true
      older j (inl closed) = cc (closed, opened)
      older j (inr there) = has_chunk-older e.sha256 transfer_id file index j active there

  handle_sent-Step :
      (index : ℕ) (active : ActiveTransfer) (w : World)
      → str_eq active.manifest_path active.path ≡ false
      → Post
          (handle_sent node_id headers file active index e w)
          (λ b _. Step active index b)
          (λ _ _. ⊥)
  unfolding handle_chunk chunk_read
  handle_sent-Step index active w apart =
      rw (tells index) (elim (Bool-cases (not active.is_open || has_chunk index active.received)) [
        | inl skip ↦ rw skip (
          apart,
          skipped active.is_open (has_chunk index active.received) skip,
          λ k before. before,
        )
        | inr new ↦ rw new (
            Post-after (λ b _. Step active index b) (λ _ _. ⊥)
              (attempt (write_file_at active.path (index * 65536) (chunk_payload file index)) e w) _
              (Post-attempt (write_file_at active.path (index * 65536) (chunk_payload file index)) e
                w (λ r _. IsWritten r) (λ _ _. ⊥)
                (write-Post active.path (index * 65536) (chunk_payload file index) w) (λ _ _ k. tt)
                (λ x _ k. k))
              (λ x w' k. absurd k)
              λ r w' k.
                written index active r w' apart
                  (still_open active.is_open (has_chunk index active.received) new) k)
      ])

  -- What is done stays done.
  deliver-IsDone_kept :
      (indices : List ℕ) (k : ℕ) (active : ActiveTransfer) (w : World)
      → str_eq active.manifest_path active.path ≡ false
      → IsDone k active
      → Post (deliver node_id headers file indices active e w) (λ b _. IsDone k b) (λ _ _. ⊥)
  deliver-IsDone_kept [] k active w apart done = done
  deliver-IsDone_kept (index ∷ rest) k active w apart done =
      Post-after (λ b _. IsDone k b) (λ _ _. ⊥) _ _ (handle_sent-Step index active w apart)
        (λ x w' h. h) λ b w' h. deliver-IsDone_kept rest k b w' h.0 (h.2 k done)

  -- While no call to the outside fails, every chunk whose message is delivered has been received at
  -- the end, if the file is not closed by then.
  pub deliver-IsDone :
      (indices : List ℕ) (k : ℕ) (active : ActiveTransfer) (w : World)
      → str_eq active.manifest_path active.path ≡ false
      → listed k indices ≡ true
      → Post (deliver node_id headers file indices active e w) (λ b _. IsDone k b) (λ _ _. ⊥)
  deliver-IsDone [] k active w apart named = cc named
  deliver-IsDone (index ∷ rest) k active w apart named =
      Post-after (λ b _. IsDone k b) (λ _ _. ⊥) (handle_sent node_id headers file active index e w)
        _ (handle_sent-Step index active w apart) (λ x w' h. h)
        λ b w' h. elim (Bool-cases (index == k)) [
          | inl hit ↦
              deliver-IsDone_kept rest k b w' h.0
                (subst (λ j. IsDone j b) ((==_iff index k).0 hit) h.1)
          | inr miss ↦ deliver-IsDone rest k b w' h.0 (rw miss at named)
        ]
