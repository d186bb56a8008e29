-- ===== src/UseCases/Dispatch/Loop.antt =====
-- dispatch.go: what `publishFileChunks` publishes while no call to the outside fails.
use update_service.Base.{
  ℕ, zero, suc, ◌+◌, ◌*◌, ◌<◌, ◌≤◌, ◌≡◌, ◌∙◌, ◌++◌, refl, ap, sym, String, false, some, List, [],
  ◌∷◌, arith, ◌==◌, cat, length, take, drop, length-take, length-drop,
}
use update_service.Domain.Job.{FileTransfer}
use update_service.Effect.{
  Env, World, Message, Content, json, bytes, Outcome, ok, err, panic, IsReliable, Returns, counted,
}
use update_service.Nats.{transfer_chunks_subject}
use update_service.Repositories.Chunks
use update_service.Transfer.Bytes.{bytes_at}
use update_service.Transfer.Sender.{chunk_payload, total_chunks}
use update_service.UseCases.Dispatch.{
  read_at, published_chunk, dispatch_headers, send_chunk, send_chunks, open_input,
  publish_file_chunks,
}

-- The message of a chunk.
abbrev pub chunk_message : (List ℕ → String) → FileTransfer → List ℕ → ℕ → Message
chunk_message sha256 t file index = record {
  subject = transfer_chunks_subject t.id;
  headers = dispatch_headers sha256 t (chunk_payload file index) index;
  content = bytes (chunk_payload file index);
}

-- `f (n - 1)`, …, `f 0`.
abbrev pub newest_first : (ℕ → Message) → ℕ → List Message
newest_first f zero = []
newest_first f (suc n) = f n ∷ newest_first f n

abbrev content_bytes : Content → List ℕ
content_bytes (json j) = []
content_bytes (bytes b) = b

-- The bytes that messages carry, those of the oldest first.
abbrev pub joined : List Message → List ℕ
joined [] = []
joined (m ∷ ms) = joined ms ++ content_bytes m.content

take-nil : (n : ℕ) → ◌≡◌ {A = List ℕ} (take n []) []
take-nil zero = refl
take-nil (suc n) = refl

take-add : (n m : ℕ) (xs : List ℕ) → take n xs ++ take m (drop n xs) ≡ take (n + m) xs
take-add zero m xs = let e : m ≡ 0 + m = omega arith in ap (λ k. take k xs) e
take-add (suc n) m [] = take-nil m ∙ sym (take-nil (suc n + m))
take-add (suc n) m (x ∷ xs) =
    let e : suc n + m ≡ suc (n + m) = omega arith in rw e (ap (◌∷◌ x) (take-add n m xs))

take_all : (n : ℕ) (xs : List ℕ) → length xs ≤ n → take n xs ≡ xs
take_all zero [] h = refl
take_all zero (x ∷ xs) h = absurd (omega (arith, h))
take_all (suc n) [] h = refl
take_all (suc n) (x ∷ xs) h = ap (◌∷◌ x) (take_all n xs (omega (arith, h)))

-- The first chunks are the first bytes.
joined-newest_first :
    (sha256 : List ℕ → String) (t : FileTransfer) (file : List ℕ) (n : ℕ)
    → joined (newest_first (chunk_message sha256 t file) n) ≡ take (n * 65536) file
joined-newest_first sha256 t file zero = refl
joined-newest_first sha256 t file (suc n) =
    let e : n * 65536 + 65536 ≡ suc n * 65536 = omega arith in
    rw (joined-newest_first sha256 t file n)
      (take-add (n * 65536) 65536 file ∙ ap (λ k. take k file) e)

enough : (file : List ℕ) → length file ≤ total_chunks (length file) * 65536
unfolding total_chunks
enough file = omega arith

nonempty :
    (file : List ℕ) (index : ℕ)
    → index < total_chunks (length file)
    → (length (chunk_payload file index) == 0) ≡ false
unfolding total_chunks
nonempty file index h = ground (arith, some_bytes)
  where
    some_bytes : 0 < length (chunk_payload file index)
    some_bytes =
        omega (
          arith,
          h,
          length-take 65536 (drop (index * 65536) file),
          length-drop (index * 65536) file,
        )

module _ (t : FileTransfer) (file : List ℕ) (e : Env) (works : IsReliable e)
    (size : t.chunk_size_bytes ≡ 65536) where
  sent : (index : ℕ) (w : World) → World
  sent index w = record (counted (counted w)) {
    db = record w.db {
      chunks =
          Chunks.upserted (published_chunk e.sha256 t (chunk_payload file index) index) w.db.chunks;
    };
    published = chunk_message e.sha256 t file index ∷ w.published;
  }

  sent-published :
      (index : ℕ) (w : World)
      → (sent index w).published ≡ chunk_message e.sha256 t file index ∷ w.published
  unfolding sent
  sent-published index w = refl

  send_chunk_lem :
      (index : ℕ) (w : World)
      → send_chunk t (chunk_payload file index) index e w ≡ ok tt (sent index w)
  unfolding send_chunk sent Chunks.upsert
  send_chunk_lem index w = rw (works w.calls, works (suc w.calls)) refl

  read_same : (index : ℕ) → read_at t file index ≡ chunk_payload file index
  read_same index = rw size refl

  -- The rounds that are left add the chunks that are left.
  send_chunks-published :
      (rounds index n : ℕ) (base : List Message) (w : World)
      → index + rounds ≡ n
      → n ≤ total_chunks (length file)
      → w.published ≡ newest_first (chunk_message e.sha256 t file) index ++ base
      → Returns
          (send_chunks t file rounds index e w)
          (λ _ w'. w'.published ≡ newest_first (chunk_message e.sha256 t file) n ++ base)
  unfolding send_chunks
  send_chunks-published zero index n base w e_n below h =
      h ∙ ap (λ k. newest_first (chunk_message e.sha256 t file) k ++ base) (omega (arith, e_n))
  send_chunks-published (suc rounds) index n base w e_n below h =
      rw
        (
          works w.calls,
          read_same index,
          nonempty file index (omega (arith, e_n, below)),
          send_chunk_lem index (counted w),
        )
        (send_chunks-published rounds (suc index) n base (sent index (counted w))
          (omega (arith, e_n)) below (next h))
    where
      next :
          w.published ≡ newest_first (chunk_message e.sha256 t file) index ++ base
          → (sent index (counted w)).published
            ≡ newest_first (chunk_message e.sha256 t file) (suc index) ++ base
      next h = sent-published index (counted w) ∙ ap (◌∷◌ (chunk_message e.sha256 t file index)) h

  open_input_lem :
      (path : String) (w : World)
      → bytes_at path w.files ≡ some file
      → open_input path e w ≡ ok file (counted (counted w))
  unfolding open_input
  open_input_lem path w found = rw (works w.calls, found, works (suc w.calls)) refl

-- While no call to the outside fails, the dispatch publishes the chunks of the staged file in their
-- order, one message for each of the chunks that the transfer announces, and together they carry the
-- whole file.
pub publish_file_chunks-published :
    (t : FileTransfer) (file : List ℕ) (e : Env) (w : World)
    → IsReliable e
    → t.chunk_size_bytes ≡ 65536
    → t.total_chunks ≡ total_chunks (length file)
    → bytes_at (cat t.staging_path "/input") w.files ≡ some file
    → Returns (publish_file_chunks t e w) (λ _ w'.
      (w'.published ≡ newest_first (chunk_message e.sha256 t file) t.total_chunks ++ w.published)
      × (joined (newest_first (chunk_message e.sha256 t file) t.total_chunks) ≡ file))
unfolding publish_file_chunks
publish_file_chunks-published t file e w works size total found =
    rw (open_input_lem t file e works size (cat t.staging_path "/input") w found) (
      both (send_chunks t file t.total_chunks 0 e (counted (counted w))) _ (
        send_chunks-published t file e works size t.total_chunks 0 t.total_chunks w.published
          (counted (counted w)) (omega arith) (omega (arith, total)) refl))
  where
    all : joined (newest_first (chunk_message e.sha256 t file) t.total_chunks) ≡ file
    all =
        joined-newest_first e.sha256 t file t.total_chunks
        ∙ take_all _ file (omega (arith, enough file, total))

    both :
        (o : Outcome (Unit {0})) (P : World → Type 0)
        → Returns o (λ _ w'. P w')
        → Returns o (λ _ w'.
          P w' × (joined (newest_first (chunk_message e.sha256 t file) t.total_chunks) ≡ file))
    both (ok a w') P h = (h, all)
    both (err x w') P h = absurd h
    both (panic w') P h = absurd h
