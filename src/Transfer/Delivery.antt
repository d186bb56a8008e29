-- ===== src/Transfer/Delivery.antt =====
-- transfer.go and receiver.go: a delivery of the sender's messages to the receiver, in any order and
-- with any of them more than once.
use update_service.Base.{
  ℕ, ◌⊎◌, ◌*◌, ◌<◌, ◌≡◌, refl, inl, inr, Bool-cases, String, Bool, true, false, not, ◌||◌, Option,
  none, some, List, [], ◌∷◌, arith, str_eq_refl, All, length,
}
use update_service.Effect.{Env, World, M, ok, ◌>>=◌, pure, attempt}
use update_service.Effect.Post.{Post, Post-after, Post-attempt, Post-mono}
use update_service.Transfer.Bytes.{write_at}
use update_service.Transfer.Sender.{Headers, chunk_payload, total_chunks}
use update_service.Transfer.Active.{
  ActiveTransfer, ChunkMessage, read_chunk, has_chunk, with_chunk, content_of, write_file_at,
}
use update_service.Transfer.Receiver.{chunk_stored, chunk_read, chunk_written, handle_chunk}
use update_service.Transfer.Kept.{chunk_stored-Post}
use update_service.Transfer.Assembly.{Holds, sent, written-Holds}

-- A transfer that has arrived holds what its file holds.
Arrived-Holds :
    (file : List ℕ) (active b : ActiveTransfer) (w w' : World)
    → Holds file active w
    → content_of active.path w' ≡ content_of active.path w
    → b.path ≡ active.path
    → b.received ≡ active.received
    → b.manifest_path ≡ active.manifest_path
    → Holds file b w'
Arrived-Holds file active b w w' h content path received manifest = record {
  size = rw (path, content) h.size;
  apart = rw (path, manifest) h.apart;
  count = rw received h.count;
  chunks = λ k i has. rw (path, content) (h.chunks k i (rw received at has));
}

pub not_there : (opened there : Bool) → not opened || there ≡ false → there ≡ false
not_there opened there h = ground (arith, h)

-- `headers` gives the headers that each chunk of the file is sent with.
module _ (node_id : String) (headers : ℕ → Headers) (file : List ℕ) where
  -- The message of a chunk is handled.
  abbrev pub handle_sent : ActiveTransfer → ℕ → M ActiveTransfer
  handle_sent active index = handle_chunk node_id active (headers index) (chunk_payload file index)

  -- The messages are handled one after the other.
  abbrev pub deliver : List ℕ → ActiveTransfer → M ActiveTransfer
  deliver [] active = pure active
  deliver (index ∷ rest) active = handle_sent active index >>= deliver rest

-- The headers say of each chunk what it is.
abbrev pub Tells : (List ℕ → String) → String → (ℕ → Headers) → List ℕ → Type 0
Tells sha256 transfer_id headers file =
    (index : ℕ)
    → read_chunk sha256 (headers index) (chunk_payload file index)
      ≡ some (sent sha256 transfer_id file index)

module _ (node_id transfer_id : String) (headers : ℕ → Headers) (file : List ℕ) (e : Env)
    (tells : Tells e.sha256 transfer_id headers file) where
  write-Post :
      (path : String) (offset : ℕ) (payload : List ℕ) (w : World)
      → Post
          (write_file_at path offset payload e w)
          (λ _ w'. content_of path w' ≡ write_at offset payload (content_of path w))
          (λ _ w'. content_of path w' ≡ content_of path w)
  unfolding write_file_at
  write-Post path offset payload w = elim (Bool-cases (e.fails w.calls)) [
    | inl bad ↦ rw bad refl
    | inr good ↦ rw (good, str_eq_refl path) refl
  ]

  -- What the write has done to the file, if it has.
  abbrev Written : ActiveTransfer → ℕ → World → Option (Unit {0}) → World → Type 0
  Written active index w none w' = content_of active.path w' ≡ content_of active.path w
  Written active index w (some _) w' =
      content_of active.path w'
      ≡ write_at (index * 65536) (chunk_payload file index) (content_of active.path w)

  arrived :
      (index : ℕ) (active : ActiveTransfer) (w : World) (r : Option (Unit {0})) (w' : World)
      → index < total_chunks (length file)
      → Holds file active w
      → has_chunk index active.received ≡ false
      → Written active index w r w'
      → Post
          (chunk_written node_id active (sent e.sha256 transfer_id file index) r e w')
          (λ b v. Holds file b v)
          (λ _ _. ⊥)
  arrived index active w none w' below h new same =
      Arrived-Holds file active active w w' h same refl refl refl
  arrived index active w (some _) w' below h new written =
      let m = sent e.sha256 transfer_id file index in
      let grown : Holds file (with_chunk active m) w' =
        written-Holds e.sha256 transfer_id file index active w w' below h new written in
      Post-mono (chunk_stored node_id active m e w')
        (λ b v k. Arrived-Holds file (with_chunk active m) b w' v grown k.0 k.1 k.2 k.3)
        (λ x v k. k)
        (chunk_stored-Post node_id active m h.apart (content_of active.path w') e w' refl)

  -- What a transfer holds, it holds after another message of the sender: a new chunk is added, and one
  -- that it has, or that comes when the file is closed, changes nothing.
  pub handle_sent-Holds :
      (index : ℕ) (active : ActiveTransfer) (w : World)
      → index < total_chunks (length file)
      → Holds file active w
      → Post
          (handle_sent node_id headers file active index e w)
          (λ b w'. Holds file b w')
          (λ _ _. ⊥)
  unfolding handle_chunk chunk_read
  handle_sent-Holds index active w below h =
      rw (tells index) (elim (Bool-cases (not active.is_open || has_chunk index active.received)) [
        | inl skip ↦ rw skip h
        | inr new ↦ rw new (
            Post-after (λ b w'. Holds file b w') (λ _ _. ⊥)
              (attempt (write_file_at active.path (index * 65536) (chunk_payload file index)) e w) _
              (Post-attempt (write_file_at active.path (index * 65536) (chunk_payload file index)) e
                w (Written active index w) (λ _ _. ⊥)
                (write-Post active.path (index * 65536) (chunk_payload file index) w) (λ _ w' k. k)
                (λ x w' k. k))
              (λ x w' k. absurd k)
              λ r w' k.
                arrived index active w r w' below h
                  (not_there active.is_open (has_chunk index active.received) new) k)
      ])

  -- Whatever the outside does, a delivery of chunks of the file whose headers tell what they are, in any order and with any of them
  -- more than once, keeps in the staging file every chunk that the receiver counts as received.
  pub deliver-Holds :
      (indices : List ℕ) (active : ActiveTransfer) (w : World)
      → All (λ index. index < total_chunks (length file)) indices
      → Holds file active w
      → Post (deliver node_id headers file indices active e w) (λ b w'. Holds file b w') (λ _ _. ⊥)
  deliver-Holds [] active w below h = h
  deliver-Holds (index ∷ rest) active w below h =
      Post-after (λ b w'. Holds file b w') (λ _ _. ⊥)
        (handle_sent node_id headers file active index e w) _
        (handle_sent-Holds index active w below.0 h) (λ x w' k. k)
        λ b w' k. deliver-Holds rest b w' below.1 k

-- A chunk that has been received, and any chunk once the file is closed, is handled without any
-- effect.
pub handle_chunk-again :
    (node_id : String) (e : Env) (headers : Headers) (payload : List ℕ) (m : ChunkMessage)
    (active : ActiveTransfer) (w : World)
    → read_chunk e.sha256 headers payload ≡ some m
    → (active.is_open ≡ false) ⊎ (has_chunk m.index active.received ≡ true)
    → handle_chunk node_id active headers payload e w ≡ ok active w
unfolding handle_chunk chunk_read
handle_chunk-again node_id e headers payload m active w read (inl closed) = rw (read, closed) refl
handle_chunk-again node_id e headers payload m active w read (inr there) =
    rw (read, there) (ground arith)
