-- ===== src/Repositories/Chunks/Again.antt =====
-- chunk_repository.go: a chunk that is stored again.
use update_service.Base.{
  suc, ◌≡◌, refl, inl, inr, Bool-cases, true, List, [], ◌∷◌, str_eq_refl, ap, length,
}
use update_service.Domain.Job.{FileChunk}
use update_service.Repositories.Chunks.{is_duplicate, merged_chunk, upserted}

own_duplicate : (c : FileChunk) → is_duplicate c c ≡ true
own_duplicate c = rw (str_eq_refl c.id) refl

merged_duplicate : (c row : FileChunk) → is_duplicate c (merged_chunk c row) ≡ is_duplicate c row
unfolding merged_chunk
merged_duplicate c row = refl

-- A chunk that is stored a second time adds no row, by whichever of the two keys it is found.
pub length-upserted_again :
    (c : FileChunk) (rows : List FileChunk)
    → length (upserted c (upserted c rows)) ≡ length (upserted c rows)
unfolding upserted
length-upserted_again c [] = rw (own_duplicate c) refl
length-upserted_again c (row ∷ rows) = elim (Bool-cases (is_duplicate c row)) [
  | inl d ↦ rw (d, merged_duplicate c row, d) refl
  | inr d ↦ rw (d, d) (ap suc (length-upserted_again c rows))
]
