-- ===== src/Transfer/Assembly.antt =====
-- transfer.go and receiver.go: the chunks of a file, in whatever order they come and however often,
-- put the file together again.
use update_service.Base.{
  ℕ, [], ◌⊎◌, ◌+◌, ◌-◌, ◌*◌, ◌/◌, ◌<◌, ◌≤◌, ◌≡◌, ◌∙◌, refl, inl, inr, Bool-cases, String, true,
  false, ◌&&◌, some, List, arith, ◌==◌, str_eq, str_eq_refl, length, drop, scan_decimal-decimal,
  ltb, leb, length-take, length-drop,
}
use update_service.Effect.{World}
use update_service.Transfer.Bytes.{
  write_at, byte_at, byte_at-write_at, length-write_at, byte_at-slice, same_bytes,
}
use update_service.Transfer.Sender.{chunk_headers, chunk_payload, total_chunks}
use update_service.Transfer.Active.{
  ActiveTransfer, ChunkMessage, read_chunk, has_chunk, with_chunk, stored_chunk, content_of,
}
use update_service.Transfer.Count.{missing, missing-none, missing-new, has_chunk-full}

-- The chunks that have arrived are in the file, which has the length of the source.
pub record Holds (file : List ℕ) (active : ActiveTransfer) (w : World) : Type 0 where
  pub size : length (content_of active.path w) ≡ length file
  pub apart : str_eq active.manifest_path active.path ≡ false
  pub count :
      missing (total_chunks (length file)) active.received + length active.received
      ≡ total_chunks (length file)
  pub chunks :
      (index i : ℕ)
      → has_chunk index active.received ≡ true
      → index * 65536 ≤ i
      → i < (index + 1) * 65536
      → i < length file
      → byte_at i (content_of active.path w) ≡ byte_at i file

-- A transfer starts with a file of the right length and no chunks.
pub fresh-Holds :
    (file : List ℕ) (active : ActiveTransfer) (w : World)
    → length (content_of active.path w) ≡ length file
    → str_eq active.manifest_path active.path ≡ false
    → active.received ≡ []
    → Holds file active w
fresh-Holds file active w size apart empty = record {
  size = size;
  apart = apart;
  count = rw empty (omega (arith, missing-none (total_chunks (length file))));
  chunks = λ index i has low high inside. cc (rw empty at has);
}

pub Holds-complete :
    (file : List ℕ) (active : ActiveTransfer) (w : World)
    → Holds file active w
    → length active.received ≡ total_chunks (length file)
    → content_of active.path w ≡ file
unfolding total_chunks
Holds-complete file active w h full = same_bytes (content_of active.path w) file h.size (λ i k.
    h.chunks (i / 65536) i (all (i / 65536) (omega (arith, k, h.size))) (omega arith) (omega arith)
      (omega (arith, k, h.size)))
  where
    all : (index : ℕ) → index < total_chunks (length file) → has_chunk index active.received ≡ true
    all = has_chunk-full (total_chunks (length file)) active.received (omega (arith, h.count, full))

same_number : (n : ℕ) → (n == n) ≡ true
same_number n = ground arith

in_range : (a l i : ℕ) → leb a i && ltb i (a + l) ≡ true → (a ≤ i) × (i < a + l)
in_range a l i h = ground arith

off_range : (a l i : ℕ) → leb a i && ltb i (a + l) ≡ false → (i < a) ⊎ (a + l ≤ i)
off_range a l i h = ground arith

ltb-below : (a b : ℕ) → a < b → ltb a b ≡ true
ltb-below a b h = ground arith

different : (a b : ℕ) → (a < b) ⊎ (b < a) → (a == b) ≡ false
different a b h = ground arith

module _ (sha256 : List ℕ → String) (transfer_id : String) (file : List ℕ) where
  -- What the message of a chunk says.
  abbrev pub sent : ℕ → ChunkMessage
  sent index = record {
    index = index;
    offset = index * 65536;
    payload = chunk_payload file index;
    checksum = sha256 (chunk_payload file index);
    transfer_id = transfer_id;
  }

  -- The receiver reads from the sender's headers what the sender has put there, and finds the
  -- payload's length and digest right.
  pub read_chunk-chunk_headers :
      (operation_id target file_sha256 deadline : String) (index : ℕ)
      → read_chunk sha256
          (chunk_headers sha256 operation_id transfer_id target file_sha256 deadline file index)
          (chunk_payload file index)
        ≡ some (sent index)
  unfolding read_chunk chunk_headers
  read_chunk-chunk_headers operation_id target file_sha256 deadline index =
      rw
        (
          scan_decimal-decimal index,
          scan_decimal-decimal (length (chunk_payload file index)),
          scan_decimal-decimal (index * 65536),
          same_number (length (chunk_payload file index)),
          str_eq_refl (sha256 (chunk_payload file index)),
        )
        refl

  -- The chunk lies in the file.
  chunk_fits :
      (index : ℕ)
      → index < total_chunks (length file)
      → index * 65536 + length (chunk_payload file index) ≤ length file
  unfolding total_chunks
  chunk_fits index h =
      omega
        (arith, h, length-take 65536 (drop (index * 65536) file), length-drop (index * 65536) file)

  -- The write of a chunk adds it to the chunks that the file holds.
  pub written-Holds :
      (index : ℕ) (active : ActiveTransfer) (w w' : World)
      → index < total_chunks (length file)
      → Holds file active w
      → has_chunk index active.received ≡ false
      → content_of active.path w'
        ≡ write_at (index * 65536) (chunk_payload file index) (content_of active.path w)
      → Holds file (with_chunk active (sent index)) w'
  written-Holds index active w w' below h new written = record {
    size = rw written (length-write_at (index * 65536) payload before fits ∙ h.size);
    apart = h.apart;
    count =
        missing-new (stored_chunk (sent index)) (total_chunks (length file)) active.received new
          below h.count;
    chunks = λ k i has low high inside. rw written (covered k i has low high inside);
  }
    where
      before : List ℕ
      before = content_of active.path w

      payload : List ℕ
      payload = chunk_payload file index

      fits : index * 65536 + length payload ≤ length before
      fits = omega (arith, chunk_fits index below, h.size)

      -- A byte that the write covers, and one that it leaves.
      byte :
          (i : ℕ)
          → i < length file
          → ((i < index * 65536) ⊎ ((index + 1) * 65536 ≤ i) → byte_at i before ≡ byte_at i file)
          → byte_at i (write_at (index * 65536) payload before) ≡ byte_at i file
      byte i inside others =
          byte_at-write_at (index * 65536) payload before fits i
          ∙ elim (Bool-cases (leb (index * 65536) i && ltb i (index * 65536 + length payload))) [
            | inl y ↦ rw y (in_payload y)
            | inr n ↦ rw n (others (out n))
          ]
        where
          in_payload :
              leb (index * 65536) i && ltb i (index * 65536 + length payload) ≡ true
              → byte_at (i - index * 65536) payload ≡ byte_at i file
          in_payload y =
              let r = in_range (index * 65536) (length payload) i y in
              let same : index * 65536 + (i - index * 65536) ≡ i = omega (arith, r.0) in
              let small : ltb (i - index * 65536) 65536 ≡ true =
                ltb-below (i - index * 65536) 65536
                  (omega (arith, r.0, r.1, length-take 65536 (drop (index * 65536) file))) in
              byte_at-slice (i - index * 65536) 65536 (index * 65536) file ∙ rw (small, same) refl

          out :
              leb (index * 65536) i && ltb i (index * 65536 + length payload) ≡ false
              → (i < index * 65536) ⊎ ((index + 1) * 65536 ≤ i)
          out n = elim (off_range (index * 65536) (length payload) i n) [
            | inl before_it ↦ inl before_it
            | inr past ↦ inr (
                omega (
                  arith,
                  past,
                  inside,
                  length-take 65536 (drop (index * 65536) file),
                  length-drop (index * 65536) file,
                ))
          ]

      covered :
          (k i : ℕ)
          → has_chunk k (with_chunk active (sent index)).received ≡ true
          → k * 65536 ≤ i
          → i < (k + 1) * 65536
          → i < length file
          → byte_at i (write_at (index * 65536) payload before) ≡ byte_at i file
      covered k i has low high inside =
          byte i inside λ outside. h.chunks k i (old outside) low high inside
        where
          apart_from : (i < index * 65536) ⊎ ((index + 1) * 65536 ≤ i) → (index < k) ⊎ (k < index)
          apart_from (inl before_it) = inr (omega (arith, low, before_it))
          apart_from (inr past) = inl (omega (arith, high, past))

          old : (i < index * 65536) ⊎ ((index + 1) * 65536 ≤ i) → has_chunk k active.received ≡ true
          old outside =
              let other : (index == k) ≡ false = different index k (apart_from outside) in
              rw other at has
