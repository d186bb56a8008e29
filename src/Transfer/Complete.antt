-- ===== src/Transfer/Complete.antt =====
-- receiver.go: while no call to the outside fails, a transfer ends with the source as its file.
use update_service.Base.{
  ℕ, ◌*◌, ◌<◌, ◌≡◌, ◌⊎◌, inl, inr, refl, subst, sym, Bool-cases, String, true, false, not, ◌||◌,
  List, [], ◌∷◌, arith, ◌==◌, str_eq, str_eq_refl, length, All,
}
use native.Mathlib.Decide.{dec_lt}
use update_service.Domain.Job.{transfer_completed}
use update_service.Effect.{Error, Env, World, ok, counted, IsReliable, bytes}
use update_service.Effect.Post.{Post, Post-after, Post-mono, Post-both, Post-all}
use update_service.Transfer.Bytes.{write_at}
use update_service.Transfer.Sender.{Headers, chunk_payload, total_chunks}
use update_service.Transfer.Active.{
  ActiveTransfer, has_chunk, with_chunk, content_of, write_file_at,
}
use update_service.Transfer.Receiver.{handle_chunk, chunk_read, chunk_stored}
use update_service.Transfer.Count.{missing-full}
use update_service.Transfer.Assembly.{Holds, Holds-complete, sent, written-Holds}
use update_service.Transfer.Delivery.{Tells, handle_sent, deliver, handle_sent-Holds, not_there}
use update_service.Transfer.Received.{listed, IsDone, deliver-IsDone, still_open}
use update_service.Transfer.Ended.{IsNext, chunk_stored-IsNext}

module _ (file : List ℕ) where
  -- A transfer that has ended with all of the chunks.
  abbrev pub IsEnded : ActiveTransfer → Type 0
  IsEnded a =
      (a.is_open ≡ false)
      × (length a.received ≡ total_chunks (length file))
      × (a.transfer.status ≡ transfer_completed)

  -- The transfer has ended with the source as its file.
  abbrev pub IsSource : ActiveTransfer → World → Type 0
  IsSource b w =
      (content_of b.path w ≡ file) × (b.is_open ≡ false) × (b.transfer.status ≡ transfer_completed)

module _ (sha256 : List ℕ → String) (file : List ℕ) where
  -- A transfer that waits for chunks of the file.
  abbrev pub IsWaiting : ActiveTransfer → Type 0
  IsWaiting a =
      (a.is_open ≡ true)
      × (length a.received < total_chunks (length file))
      × (a.total_chunks ≡ total_chunks (length file))
      × (a.total_bytes ≡ length file)
      × (a.file_sha256 ≡ sha256 file)

  abbrev pub IsGoing : ActiveTransfer → World → Type 0
  IsGoing a w = Holds file a w × (IsWaiting a ⊎ IsEnded file a)

module _ (node_id transfer_id : String) (headers : ℕ → Headers) (file : List ℕ) (e : Env)
    (works : IsReliable e) (tells : Tells e.sha256 transfer_id headers file) where
  write_works :
      (path : String) (offset : ℕ) (payload : List ℕ) (w : World)
      → write_file_at path offset payload e w
        ≡ ok tt (record (counted w) {
          files = (path, bytes (write_at offset payload (content_of path w))) ∷ w.files;
        })
  unfolding write_file_at
  write_works path offset payload w = rw (works w.calls) refl

  -- Behind the write of a new chunk.
  stored-Stage :
      (index : ℕ) (active : ActiveTransfer) (w : World)
      → IsWaiting e.sha256 file active
      → Holds file (with_chunk active (sent e.sha256 transfer_id file index)) w
      → str_eq active.manifest_path active.path ≡ false
      → Post
          (chunk_stored node_id active (sent e.sha256 transfer_id file index) e w)
          (λ b _. IsWaiting e.sha256 file b ⊎ IsEnded file b)
          (λ _ _. ⊥)
  stored-Stage index active w waiting h apart =
      let m = sent e.sha256 transfer_id file index in
      Post-mono (chunk_stored node_id active m e w) (λ b v k. next b v k) (λ x v k. k)
        (chunk_stored-IsNext node_id active m file apart e works (sym waiting.3) (sym waiting.4) w
          (λ last. Holds-complete file (with_chunk active m) w h (full last)))
    where
      grown : ActiveTransfer
      grown = with_chunk active (sent e.sha256 transfer_id file index)

      full :
          (length grown.received == active.total_chunks) ≡ true
          → length grown.received ≡ total_chunks (length file)
      full last = ground (arith, last, waiting.2)

      below :
          (length grown.received == active.total_chunks) ≡ false
          → length grown.received < total_chunks (length file)
      below more = ground (arith, more, waiting.2, h.count)

      next :
          (b : ActiveTransfer) (v : World)
          → IsNext node_id active
              (sent e.sha256 transfer_id file index)
              file
              apart
              e
              works
              (sym waiting.3)
              (sym waiting.4)
              b
              v
          → IsWaiting e.sha256 file b ⊎ IsEnded file b
      next b v (inl (more, same)) =
          subst (λ c. IsWaiting e.sha256 file c ⊎ IsEnded file c) (sym same)
            (inl (waiting.0, below more, waiting.2, waiting.3, waiting.4))
      next b v (inr (last, received, closed, status)) =
          inr (closed, rw received (full last), status)

  handle_sent-Stage :
      (index : ℕ) (active : ActiveTransfer) (w : World)
      → index < total_chunks (length file)
      → Holds file active w
      → IsWaiting e.sha256 file active ⊎ IsEnded file active
      → Post
          (handle_sent node_id headers file active index e w)
          (λ b _. IsWaiting e.sha256 file b ⊎ IsEnded file b)
          (λ _ _. ⊥)
  unfolding handle_chunk chunk_read
  handle_sent-Stage index active w below h stage =
      rw (tells index) (elim (Bool-cases (not active.is_open || has_chunk index active.received)) [
        | inl skip ↦ rw skip stage
        | inr new ↦
            rw (new, write_works active.path (index * 65536) (chunk_payload file index) w)
              (stored-Stage index active (written w) (waits new)
                (written-Holds e.sha256 transfer_id file index active w (written w) below h
                  (not_there active.is_open (has_chunk index active.received) new)
                  (rw (str_eq_refl active.path) refl))
                h.apart)
      ])
    where
      written : World → World
      written w = record (counted w) {
        files =
            (
              active.path,
              bytes
                  (write_at (index * 65536) (chunk_payload file index) (content_of active.path w)),
            )
            ∷ w.files;
      }

      waits :
          not active.is_open || has_chunk index active.received ≡ false
          → IsWaiting e.sha256 file active
      waits new = elim stage [
        | inl waiting ↦ waiting
        | inr ended ↦ cc (ended.0, still_open active.is_open (has_chunk index active.received) new)
      ]

  handle_sent-IsGoing :
      (index : ℕ) (active : ActiveTransfer) (w : World)
      → index < total_chunks (length file)
      → (IsGoing e.sha256 file) active w
      → Post (handle_sent node_id headers file active index e w) (IsGoing e.sha256 file) (λ _ _. ⊥)
  handle_sent-IsGoing index active w below g =
      let Q : Error → World → Type 0 = λ _ _. ⊥ in
      let o = handle_sent node_id headers file active index e w in
      Post-mono o (λ b w' h. h) (λ x w' h. h.0)
        (Post-both _ _ Q Q o
          (handle_sent-Holds node_id transfer_id headers file e tells index active w below g.0)
          (handle_sent-Stage index active w below g.0 g.1))

  pub deliver-IsGoing :
      (indices : List ℕ) (active : ActiveTransfer) (w : World)
      → All (λ index. index < total_chunks (length file)) indices
      → (IsGoing e.sha256 file) active w
      → Post (deliver node_id headers file indices active e w) (IsGoing e.sha256 file) (λ _ _. ⊥)
  deliver-IsGoing [] active w below g = g
  deliver-IsGoing (index ∷ rest) active w below g =
      Post-after (IsGoing e.sha256 file) (λ _ _. ⊥)
        (handle_sent node_id headers file active index e w) _
        (handle_sent-IsGoing index active w below.0 g) (λ x w' k. k)
        λ b w' k. deliver-IsGoing rest b w' below.1 k

  -- With each chunk at hand a transfer does not wait.
  source :
      (b : ActiveTransfer) (w : World)
      → (IsGoing e.sha256 file) b w
      → ((k : ℕ) → k < total_chunks (length file) → IsDone k b)
      → (IsSource file) b w
  source b w (h, inr ended) done = (Holds-complete file b w h ended.1, ended.0, ended.2)
  source b w (h, inl waiting) done = absurd (
      omega (arith, waiting.1, h.count, missing-full (total_chunks (length file)) b.received there))
    where
      there : (k : ℕ) → k < total_chunks (length file) → has_chunk k b.received ≡ true
      there k below = elim (done k below) [
        | inl closed ↦ cc (closed, waiting.0)
        | inr received ↦ received
      ]

  -- While no call to the outside fails, a delivery that has each chunk of the file at least once, in
  -- any order, ends the transfer with the source as its file.
  pub deliver-IsSource :
      (indices : List ℕ) (active : ActiveTransfer) (w : World)
      → All (λ index. index < total_chunks (length file)) indices
      → ((k : ℕ) → k < total_chunks (length file) → listed k indices ≡ true)
      → (IsGoing e.sha256 file) active w
      → Post (deliver node_id headers file indices active e w) (IsSource file) (λ _ _. ⊥)
  deliver-IsSource indices active w below all g =
      let Q : Error → World → Type 0 = λ _ _. ⊥ in
      let o = deliver node_id headers file indices active e w in
      let Reached : ℕ → ActiveTransfer → World → Type 0 =
        λ k b w'. (k < total_chunks (length file)) → IsDone k b in
      Post-mono o (λ b w' h. source b w' h.0 h.1) (λ x w' h. h.0)
        (Post-both _ _ Q Q o (deliver-IsGoing indices active w below g)
          (Post-all Reached o (λ k. each k (dec_lt k (total_chunks (length file))))))
    where
      each :
          (k : ℕ)
          → Dec (k < total_chunks (length file))
          → Post
              (deliver node_id headers file indices active e w)
              (λ b w'. (k < total_chunks (length file)) → IsDone k b)
              (λ _ _. ⊥)
      each k (yes small) =
          Post-mono (deliver node_id headers file indices active e w) (λ b w' h _. h) (λ x w' h. h)
            (deliver-IsDone node_id transfer_id headers file e works tells indices k active w
              g.0.apart (all k small))
      each k (no large) =
          Post-mono (deliver node_id headers file indices active e w)
            (λ b w' h small. absurd (large small)) (λ x w' h. h)
            (deliver-IsGoing indices active w below g)
