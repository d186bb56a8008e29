-- ===== src/Repositories/Operations/Locking.antt =====
-- operation_repository.go: the version check of `Update` and `Transition`.
use mathlib.Core.Option
use update_service.Base.{
  ℕ, suc, sym, subst, ◌+◌, ◌≡◌, ◌∙◌, ◌≢◌, ◌⊎◌, refl, ap, String, true, ◌&&◌, Option, none, some,
  List, arith, eq_iff, Bool-cases, ltb, inl, inr, ◌==◌, find_key, find_where, find_where-and,
  find_key-update_where, find_key-key, update_where-IsKeyed, update_where, update_where-none,
  IsKeyed, if◌then◌else◌, count_where, count_where-find_where,
}
use update_service.Domain.Operation.{OperationStatus, Operation, same_status}
use update_service.Effect.{
  Env, World, row_not_found, external, err, ◌>>◌, IsReliable, Returns, call,
}
use update_service.Effect.Post.{Post}
use update_service.Effect.Tables.{OperationRow}
use update_service.Repositories.Operations.{
  update, updated_row, is_previous, get_by_id, scanned, transition, is_current, moved,
}
use update_service.Repositories.Operations.Rows.{
  SameIdentity, HasText, row_to_operation-updated_row,
}

-- The row of an id in a world.
abbrev pub row_of : String → World → Option OperationRow
row_of id w = find_key OperationRow.id id w.db.operations

abbrev pub IsKeyedWorld : World → Type 0
IsKeyedWorld w = IsKeyed OperationRow.id w.db.operations

abbrev pub rows_after : Operation → List OperationRow → List OperationRow
rows_after op rows = update_where (is_previous op) (updated_row op) rows

-- A row that is found by some id is found by its own.
pub own_id :
    (id : String) (row : OperationRow) (rows : List OperationRow)
    → find_key OperationRow.id id rows ≡ some row
    → find_key OperationRow.id row.id rows ≡ some row
own_id id row rows found =
    subst (λ k. find_key OperationRow.id k rows ≡ some row)
      (sym (find_key-key OperationRow.id id rows row found)) found

same_id : (op : Operation) (row : OperationRow) → (updated_row op row).id ≡ row.id
unfolding updated_row
same_id op row = refl

pub row_of-update_where :
    (op : Operation) (id : String) (rows : List OperationRow)
    → find_key OperationRow.id id (rows_after op rows)
      ≡ Option.map
          (λ x. if is_previous op x then updated_row op x else x)
          (find_key OperationRow.id id rows)
row_of-update_where op id rows =
    find_key-update_where OperationRow.id (is_previous op) (updated_row op) (same_id op) id rows

updated_version : (op : Operation) (row : OperationRow) → (updated_row op row).version ≡ op.version
unfolding updated_row
updated_version op row = refl

-- The row that has the previous version is written.
pub next_row :
    (op : Operation) (row : OperationRow) (rows : List OperationRow)
    → find_key OperationRow.id op.id rows ≡ some row
    → row.version + 1 ≡ op.version
    → find_key OperationRow.id op.id (rows_after op rows) ≡ some (updated_row op row)
next_row op row rows found next =
    rw (row_of-update_where op op.id rows, found)
      (ground (arith, find_key-key OperationRow.id op.id rows row found, eq_iff row.id op.id))

-- For an id that is stored, an update changes the row of the id or leaves it.
pub rows_after-cases :
    (op : Operation) (row : OperationRow) (id : String) (rows : List OperationRow)
    → find_key OperationRow.id op.id rows ≡ some row
    → (find_key OperationRow.id id (rows_after op rows) ≡ find_key OperationRow.id id rows)
      ⊎ ((id ≡ op.id)
          × (find_key OperationRow.id id rows ≡ some row)
          × (find_key OperationRow.id id (rows_after op rows) ≡ some (updated_row op row)))
rows_after-cases op row id rows found =
    rw (row_of-update_where op id rows) (cases (find_key OperationRow.id id rows) refl)
  where
    cases :
        (o : Option OperationRow)
        → find_key OperationRow.id id rows ≡ o
        → (Option.map (λ x. if is_previous op x then updated_row op x else x) o ≡ o)
          ⊎ ((id ≡ op.id)
              × (o ≡ some row)
              × (Option.map (λ x. if is_previous op x then updated_row op x else x) o
                  ≡ some (updated_row op row)))
    cases none h = inl refl
    cases (some x) h =
        ground (arith, find_key-key OperationRow.id id rows x h, eq_iff x.id op.id, found, h)

pub rows_after-IsKeyed :
    (op : Operation) (rows : List OperationRow)
    → IsKeyed OperationRow.id rows
    → IsKeyed OperationRow.id (rows_after op rows)
rows_after-IsKeyed op rows =
    update_where-IsKeyed OperationRow.id (is_previous op) (updated_row op) (same_id op) rows

-- No row has the previous version.
pub stale_rows :
    (op : Operation) (row : OperationRow) (rows : List OperationRow)
    → IsKeyed OperationRow.id rows
    → find_key OperationRow.id op.id rows ≡ some row
    → row.version + 1 ≢ op.version
    → rows_after op rows ≡ rows
stale_rows op row rows keyed found stale =
    update_where-none (is_previous op) (updated_row op) rows absent
  where
    absent : find_where (is_previous op) rows ≡ none
    absent = ground (
      arith,
      find_where-and OperationRow.id (λ (x : OperationRow). x.version + 1 == op.version) op.id rows
          keyed,
    )

-- A writer whose version is not the successor of the stored one changes no table, whatever the
-- calls do, and is not told: the only errors are those of the calls.
pub update-stale :
    (op : Operation) (row : OperationRow) (e : Env) (w : World)
    → IsKeyedWorld w
    → row_of op.id w ≡ some row
    → row.version + 1 ≢ op.version
    → Post (update op e w) (λ _ w'. w'.db ≡ w.db) (λ x w'. (x ≡ external) × (w'.db ≡ w.db))
unfolding update call
update-stale op row e w keyed found stale =
    let same : rows_after op w.db.operations ≡ w.db.operations =
      stale_rows op row w.db.operations keyed found stale in
    ground arith

-- Two writers that have read the same version: whatever the second one writes is lost, and it
-- gets no error. The next read returns what the first one wrote.
pub update-update_lost :
    (a b : Operation) (row : OperationRow) (e : Env) (w : World)
    → IsReliable e
    → IsKeyedWorld w
    → row_of a.id w ≡ some row
    → b.id ≡ a.id
    → row.version + 1 ≡ a.version
    → b.version ≡ a.version
    → SameIdentity a row
    → HasText a.error
    → Returns ((update a >> (update b >> get_by_id a.id)) e w) (λ o _. o ≡ some a)
unfolding update get_by_id call
update-update_lost a b row e w r keyed found i v u same h =
    simp r (rw (second, first) (ap some (row_to_operation-updated_row a row same h)))
  where
    first : find_key OperationRow.id a.id (rows_after a w.db.operations) ≡ some (updated_row a row)
    first = next_row a row w.db.operations found v

    second : rows_after b (rows_after a w.db.operations) ≡ rows_after a w.db.operations
    second =
        stale_rows b (updated_row a row) (rows_after a w.db.operations)
          (rows_after-IsKeyed a w.db.operations keyed) (rw i first)
          (λ q. absurd (omega (arith, updated_version a row, u, q)))

counts_current :
    (id : String) (from : OperationStatus) (version : ℕ) (row : OperationRow)
    (rows : List OperationRow)
    → IsKeyed OperationRow.id rows
    → find_key OperationRow.id id rows ≡ some row
    → ltb 0 (count_where (is_current id from version) rows)
      ≡ (same_status row.status from && (row.version == version))
counts_current id from version row rows keyed found =
    count_where-find_where (is_current id from version) rows ∙ ground (arith, current)
  where
    current :
        find_where (is_current id from version) rows
        ≡ (if same_status row.status from && (row.version == version) then some row else none)
    current =
        find_where-and OperationRow.id
          (λ (x : OperationRow). same_status x.status from && (x.version == version)) id rows keyed
        ∙ rw found

moved_row :
    (id : String) (from to : OperationStatus) (version at : ℕ) (row : OperationRow)
    (rows : List OperationRow)
    → find_key OperationRow.id id rows ≡ some row
    → (same_status row.status from && (row.version == version)) ≡ true
    → find_key OperationRow.id id (update_where (is_current id from version) (moved to at) rows)
      ≡ some (moved to at row)
moved_row id from to version at row rows found hit =
    rw
      (
        find_key-update_where OperationRow.id (is_current id from version) (moved to at) (λ _. refl)
            id rows,
        found,
        hit,
      )
      (ground (arith, find_key-key OperationRow.id id rows row found, eq_iff row.id id))

-- `Transition` succeeds exactly if its id has the status and the version that it names; then the
-- row has the new status and its stage and the next version. Else no table changes.
pub transition-cases :
    (id : String) (from to : OperationStatus) (version : ℕ) (row : OperationRow) (e : Env)
    (w : World)
    → IsReliable e
    → IsKeyedWorld w
    → row_of id w ≡ some row
    → if same_status row.status from && (row.version == version)
      then Returns (transition id from to version e w) (λ o w'.
        (row_of id w' ≡ some (moved to (e.clock (suc (suc w.calls))) row))
        × (o ≡ scanned (row_of id w')))
      else ((w' : World) × (transition id from to version e w ≡ err row_not_found w')
          × (w'.db ≡ w.db))
unfolding transition
transition-cases id from to version row e w r keyed found =
    let counts = counts_current id from version row w.db.operations keyed found in
    elim (Bool-cases (same_status row.status from && (row.version == version))) [
      | inl hit ↦
          let at : ℕ = e.clock (suc (suc w.calls)) in
          rw hit (
            simp (r, counts, hit)
              ((moved_row id from to version at row w.db.operations found hit, refl)))
      | inr miss ↦
          rw miss (record w { calls = suc (suc (suc (suc w.calls))) }, simp (r, counts, miss), refl)
    ]
