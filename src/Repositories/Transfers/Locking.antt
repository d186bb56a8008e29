-- ===== src/Repositories/Transfers/Locking.antt =====
-- transfer_repository.go: the version check of `Update`.
use update_service.Base.{
  suc, ◌≡◌, ◌≢◌, refl, String, Option, none, some, List, arith, eq_iff, ◌==◌, find_key, find_where,
  find_where-and, find_key-update_where, find_key-key, update_where, update_where-none,
  update_where-IsKeyed, IsKeyed,
}
use update_service.Domain.Job.{FileTransfer}
use update_service.Effect.{Env, World, ◌>>◌, call, IsReliable, Returns}
use update_service.Repositories.Transfers.{update, get_by_id, updated_transfer, is_same_version}

abbrev pub transfer_of : String → World → Option FileTransfer
transfer_of id w = find_key FileTransfer.id id w.db.transfers

abbrev after_update : FileTransfer → List FileTransfer → List FileTransfer
after_update t rows = update_where (is_same_version t) (updated_transfer t) rows

same_id : (t row : FileTransfer) → (updated_transfer t row).id ≡ row.id
unfolding updated_transfer
same_id t row = refl

next_version : (t row : FileTransfer) → (updated_transfer t row).version ≡ suc t.version
unfolding updated_transfer
next_version t row = refl

-- The row that has the record's version is written.
written_row :
    (t row : FileTransfer) (rows : List FileTransfer)
    → find_key FileTransfer.id t.id rows ≡ some row
    → row.version ≡ t.version
    → find_key FileTransfer.id t.id (after_update t rows) ≡ some (updated_transfer t row)
written_row t row rows found same =
    rw
      (
        find_key-update_where FileTransfer.id (is_same_version t) (updated_transfer t) (same_id t)
            t.id rows,
        found,
      )
      (ground (arith, find_key-key FileTransfer.id t.id rows row found, eq_iff row.id t.id))

stale_rows :
    (t row : FileTransfer) (rows : List FileTransfer)
    → IsKeyed FileTransfer.id rows
    → find_key FileTransfer.id t.id rows ≡ some row
    → row.version ≢ t.version
    → after_update t rows ≡ rows
stale_rows t row rows keyed found stale =
    update_where-none (is_same_version t) (updated_transfer t) rows absent
  where
    absent : find_where (is_same_version t) rows ≡ none
    absent = ground (
      arith,
      find_where-and FileTransfer.id (λ (x : FileTransfer). x.version == t.version) t.id rows keyed,
    )

-- A transfer record that is updated once and then again, as accepting and then finalising a transfer
-- does, reaches the table once: the first update raises the stored version and not the record's. The
-- second update returns no error and writes nothing.
pub update-second_lost :
    (a b row : FileTransfer) (e : Env) (w : World)
    → IsReliable e
    → IsKeyed FileTransfer.id w.db.transfers
    → transfer_of a.id w ≡ some row
    → row.version ≡ a.version
    → b.id ≡ a.id
    → b.version ≡ a.version
    → Returns ((update a >> (update b >> get_by_id a.id)) e w) (λ t _. t ≡ updated_transfer a row)
unfolding update get_by_id call
update-second_lost a b row e w r keyed found v i u = simp r (rw (second, first) refl)
  where
    first :
        find_key FileTransfer.id a.id (after_update a w.db.transfers)
        ≡ some (updated_transfer a row)
    first = written_row a row w.db.transfers found v

    second : after_update b (after_update a w.db.transfers) ≡ after_update a w.db.transfers
    second =
        stale_rows b (updated_transfer a row) (after_update a w.db.transfers)
          (update_where-IsKeyed FileTransfer.id (is_same_version a) (updated_transfer a) (same_id a)
            w.db.transfers keyed)
          (rw i first) (λ q. absurd (omega (arith, next_version a row, u, q)))
