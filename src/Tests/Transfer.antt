-- ===== src/Tests/Transfer.antt =====
-- internal/infrastructure/transfer at a file of three bytes.
use update_service.Base.{ℕ, ◌<◌, ◌≡◌, refl, String, true, some, List, [], ◌∷◌, arith, length}
use update_service.Effect.{World, bytes}
use update_service.Effect.Post.{Post}
use update_service.Transfer.Sender.{Headers, chunk_headers, chunk_payload, total_chunks}
use update_service.Transfer.Active.{ActiveTransfer, read_chunk, stored_chunk}
use update_service.Transfer.Assembly.{Holds, fresh-Holds, sent, read_chunk-chunk_headers}
use update_service.Transfer.Delivery.{Tells, deliver, deliver-Holds}
use update_service.Transfer.Verified.{Verified}
use update_service.Transfer.Received.{IsDone, deliver-IsDone}
use update_service.Tests.Worlds.{transfer, world, reliable, reliable-IsReliable}

abbrev sha256 : List ℕ → String
sha256 _ = "ab12"

abbrev file : List ℕ
file = 7 ∷ 8 ∷ 9 ∷ []

abbrev staged : World
staged = record world { files = ("/staging/final", bytes (0 ∷ 0 ∷ 0 ∷ [])) ∷ [] }

abbrev waiting : ActiveTransfer
waiting = record {
  transfer = transfer;
  total_chunks = 1;
  total_bytes = 3;
  file_sha256 = "ab12";
  received = [];
  received_size = 0;
  path = "/staging/final";
  is_open = true;
  manifest_path = "/staging/manifest.json";
}

one_chunk : total_chunks 3 ≡ 1
unfolding total_chunks
one_chunk = refl

read_chunk-chunk_headers_example :
    read_chunk sha256
      (chunk_headers sha256 "op-1" "transfer-1" "node-b" "ab12" "soon" file 0)
      (chunk_payload file 0)
    ≡ some (sent sha256 "transfer-1" file 0)
read_chunk-chunk_headers_example =
    read_chunk-chunk_headers sha256 "transfer-1" file "op-1" "node-b" "ab12" "soon" 0

waiting-Holds : Holds file waiting staged
waiting-Holds = fresh-Holds file waiting staged refl refl refl

first_below : 0 < total_chunks (length file)
unfolding total_chunks
first_below = omega arith

abbrev headers : ℕ → Headers
headers = chunk_headers sha256 "op-1" "transfer-1" "node-b" "ab12" "soon" file

headers_tell : Tells reliable.sha256 "transfer-1" headers file
headers_tell = read_chunk-chunk_headers sha256 "transfer-1" file "op-1" "node-b" "ab12" "soon"

deliver-Holds_example :
    Post
      (deliver "node-b" headers file (0 ∷ 0 ∷ []) waiting reliable staged)
      (λ b w'. Holds file b w')
      (λ _ _. ⊥)
deliver-Holds_example =
    deliver-Holds "node-b" "transfer-1" headers file reliable headers_tell (0 ∷ 0 ∷ []) waiting
      staged (first_below, (first_below, tt)) waiting-Holds

abbrev received : ActiveTransfer
received = record waiting {
  received = stored_chunk (sent sha256 "transfer-1" file 0) ∷ [];
  received_size = 3;
}

abbrev arrived : World
arrived = record world { files = ("/staging/final", bytes file) ∷ [] }

deliver-IsDone_example :
    Post
      (deliver "node-b" headers file (0 ∷ []) waiting reliable staged)
      (λ b _. IsDone 0 b)
      (λ _ _. ⊥)
deliver-IsDone_example =
    deliver-IsDone "node-b" "transfer-1" headers file reliable reliable-IsReliable headers_tell
      (0 ∷ []) 0 waiting staged refl refl
