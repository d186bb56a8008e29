-- ===== src/Transfer/Accepted.antt =====
-- receiver.go: what `AcceptTransfer` makes of the command that a dispatch sends.
use text.Mathlib.TextLemmas.{append_cancel_left}
use update_service.Base.{
  ℕ, ◌-◌, ◌<◌, ◌≡◌, ◌∙◌, ap, inl, inr, refl, Bool-cases, String, true, false, List, [], arith, ◌==◌,
  ltb, str_eq, str_eq_refl, eq_iff, cat, length, take, replicate, length-append, length-take,
  length-replicate,
}
use update_service.Domain.Json.{Fields, member, as_string, as_number}
use update_service.Domain.Job.{FileTransfer}
use update_service.Effect.{Env, World, counted, call, now}
use update_service.Effect.Post.{Post, Post-after, Post-mono, Post-call}
use update_service.Repositories.Transfers
use update_service.Transfer.Bytes.{truncate}
use update_service.Transfer.Sender.{total_chunks}
use update_service.Transfer.Active.{ActiveTransfer, content_of}
use update_service.Transfer.Accept.{
  open_file, truncate_file, staging_path, new_active, prepare_file, subscribe, accepted,
  start_active, accept_transfer,
}
use update_service.Transfer.Kept.{same_content}
use update_service.Transfer.Assembly.{Holds, fresh-Holds}

length-truncate : (n : ℕ) (content : List ℕ) → length (truncate n content) ≡ n
length-truncate n content = omega (
  arith,
  length-append (take n content) (replicate (n - length content) 0),
  length-take n content,
  length-replicate {A = ℕ} (n - length content) 0,
)

truncate-Post :
    (path : String) (size : ℕ) (e : Env) (w : World)
    → Post
        (truncate_file path size e w)
        (λ _ w'. (length (content_of path w') ≡ size) × (w'.db ≡ w.db))
        (λ _ _. Unit {0})
unfolding truncate_file
truncate-Post path size e w = elim (Bool-cases (e.fails w.calls)) [
  | inl bad ↦ rw bad tt
  | inr good ↦ rw (good, str_eq_refl path) (length-truncate size (content_of path w), refl)
]

open-db :
    (path : String) (e : Env) (w : World)
    → Post (open_file path e w) (λ _ w'. w'.db ≡ w.db) (λ _ _. Unit {0})
unfolding open_file
open-db path e w = ground arith

module _ (node_id staging_dir : String) (cmd : Fields) (e : Env) where
  abbrev pub size : ℕ
  size = as_number (member "file_size_bytes" cmd)

  abbrev pub path : String
  path = cat (staging_path node_id staging_dir cmd) "/final"

  prepare-Post :
      (w : World)
      → 0 < size
      → Post
          (prepare_file node_id staging_dir cmd e w)
          (λ _ w'. (length (content_of path w') ≡ size) × (w'.db ≡ w.db))
          (λ _ _. Unit {0})
  unfolding prepare_file
  prepare-Post w some_bytes =
      let P : (Unit {0}) → World → Type 0 =
        λ _ w'. (length (content_of path w') ≡ size) × (w'.db ≡ w.db) in
      let positive : ltb 0 size ≡ true = ground arith in
      Post-after P (λ _ _. Unit) (call e w) _ (Post-call e w) (λ _ _ _. tt)
        λ _ w₁ h₁.
          Post-after P (λ _ _. Unit) (open_file path e w₁) _ (open-db path e w₁) (λ _ _ _. tt)
            λ _ w₂ h₂. rw positive (
              Post-mono (truncate_file path size e w₂) (λ _ w' h. (h.0, h.1 ∙ (h₂ ∙ rw h₁ refl)))
                (λ _ _ _. tt) (truncate-Post path size e w₂))

  apart : str_eq (cat (staging_path node_id staging_dir cmd) "/manifest.json") path ≡ false
  apart =
      elim (Bool-cases
        (str_eq (cat (staging_path node_id staging_dir cmd) "/manifest.json") path)) [
          | inl same ↦ cc (
              append_cancel_left (staging_path node_id staging_dir cmd) "/manifest.json" "/final"
                ((eq_iff _ _).0 same))
          | inr other ↦ other
        ]

  -- An active transfer of the command, for which nothing has been received.
  abbrev pub IsFresh : List ℕ → ActiveTransfer → Type 0
  IsFresh file a =
      (a.is_open ≡ true)
      × (a.received ≡ [])
      × (a.total_chunks ≡ total_chunks (length file))
      × (a.total_bytes ≡ length file)
      × (a.file_sha256 ≡ as_string (member "file_sha256" cmd))
      × (a.transfer.destination_node_id ≡ node_id)

  positive_total : (file : List ℕ) → 0 < length file → (total_chunks (length file) == 0) ≡ false
  unfolding total_chunks
  positive_total file some_bytes = ground arith

  get-Post :
      (id : String) (w : World)
      → Post (Transfers.get_by_id id e w) (λ _ w'. w'.files ≡ w.files) (λ _ _. Unit {0})
  unfolding Transfers.get_by_id
  get-Post id w = ground arith

  update-files :
      (t : FileTransfer) (w : World)
      → Post (Transfers.update t e w) (λ _ w'. w'.files ≡ w.files) (λ _ _. Unit {0})
  unfolding Transfers.update
  update-files t w = ground arith

  subscribe-files :
      (w : World) → Post (subscribe e w) (λ _ w'. w'.files ≡ w.files) (λ _ _. Unit {0})
  unfolding subscribe
  subscribe-files w = ground arith

  start-Post :
      (file : List ℕ) (t : FileTransfer) (w : World)
      → 0 < length file
      → as_number (member "file_size_bytes" cmd) ≡ length file
      → as_number (member "total_chunks" cmd) ≡ total_chunks (length file)
      → t.destination_node_id ≡ node_id
      → length (content_of path w) ≡ length file
      → Post
          (start_active node_id staging_dir
            (as_string (member "transfer_id" cmd))
            (new_active node_id staging_dir cmd t)
            e
            w)
          (λ a w'. Holds file a w' × IsFresh file a)
          (λ _ _. Unit {0})
  unfolding start_active new_active
  start-Post file t w some_bytes long_enough total own long =
      let some_chunks : (as_number (member "total_chunks" cmd) == 0) ≡ false =
        rw total (positive_total file some_bytes) in
      rw some_chunks (
        fresh-Holds file (new_active node_id staging_dir cmd t) w long apart refl,
        (refl, refl, total, long_enough, refl, own),
      )

  -- A command that announces a file's size and its number of chunks: if `AcceptTransfer` returns, the
  -- transfer is one for this node, its staging file has the size of the source, and it holds what has
  -- been received, which is nothing.
  pub accept_transfer-Holds :
      (file : List ℕ) (w : World)
      → 0 < length file
      → as_number (member "file_size_bytes" cmd) ≡ length file
      → as_number (member "total_chunks" cmd) ≡ total_chunks (length file)
      → Post
          (accept_transfer node_id staging_dir cmd e w)
          (λ a w'. Holds file a w' × IsFresh file a)
          (λ _ _. Unit {0})
  unfolding accept_transfer now
  accept_transfer-Holds file w some_bytes long_enough total =
      let P : ActiveTransfer → World → Type 0 = λ a w'. Holds file a w' × IsFresh file a in
      Post-after P (λ _ _. Unit) (Transfers.get_by_id (as_string (member "transfer_id" cmd)) e w) _
        (get-Post (as_string (member "transfer_id" cmd)) w) (λ _ _ _. tt)
        λ t w₁ h₁. elim (Bool-cases (str_eq t.destination_node_id node_id)) [
          | inr foreign ↦ rw foreign tt
          | inl own ↦ rw own (
              Post-after P (λ _ _. Unit) (prepare_file node_id staging_dir cmd e w₁) _
                (prepare-Post w₁ (omega (arith, some_bytes, long_enough))) (λ _ _ _. tt)
                λ _ w₂ h₂.
                  let t' = accepted t (e.clock w₂.calls) in
                  Post-after P (λ _ _. Unit) (Transfers.update t' e (counted w₂)) _
                    (update-files t' (counted w₂)) (λ _ _ _. tt)
                    λ _ w₃ h₃.
                      Post-after P (λ _ _. Unit) (subscribe e w₃) _ (subscribe-files w₃)
                        (λ _ _ _. tt)
                        λ _ w₄ h₄.
                          start-Post file t' w₄ some_bytes long_enough total
                            (accepted_node t (e.clock w₂.calls) own)
                            (ap length (same_content path w₄ w₂ (h₄ ∙ h₃)) ∙ (h₂.0 ∙ long_enough)))
        ]
    where
      accepted_node :
          (t : FileTransfer) (at : ℕ)
          → str_eq t.destination_node_id node_id ≡ true
          → (accepted t at).destination_node_id ≡ node_id
      accepted_node t at own = (eq_iff t.destination_node_id node_id).0 own
