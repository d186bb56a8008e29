-- ===== src/Repositories/Idempotency.antt =====
-- internal/infrastructure/mariadb/repositories/idempotency_repository.go
use update_service.Base.{
  ℕ, ◌≡◌, arith, String, Bool, true, false, ◌&&◌, ◌||◌, Option, none, some, List, [], ◌∷◌, ltb,
  if◌then◌else◌, str_eq, find_where, delete_where,
}
use update_service.Domain.Json.{Json}
use update_service.Effect.{
  Env, World, Outcome, ok, err, panic, world_of, external, row_not_found, M, ◌>>=◌, ◌>>◌, pure,
  throw, guard, get_world, modify_db, call, now,
}
use update_service.Effect.Tables.{IdempotencyRow}

-- The columns of `idempotency_keys` in migrations/001_initial_schema.sql.
abbrev pub schema : List String
schema =
    "idempotency_key" ∷ "method" ∷ "path" ∷ "fingerprint" ∷ "response" ∷ "expires_at" ∷ "created_at"
    ∷ []

abbrev contains : String → List String → Bool
contains c [] = false
contains c (d ∷ ds) = str_eq c d || contains c ds

-- The server refuses a statement that names a column which its table has not.
unfoldable pub knows : List String → Bool
knows [] = true
knows (c ∷ cs) = contains c schema && knows cs

abbrev pub is_request : String → String → String → IdempotencyRow → Bool
is_request key method path row =
    str_eq row.key key && (str_eq row.method method && str_eq row.path path)

-- `ON DUPLICATE KEY UPDATE`, by the three parts of the request.
unfoldable pub stored : IdempotencyRow → List IdempotencyRow → List IdempotencyRow
stored r [] = r ∷ []
stored r (row ∷ rows) =
    if is_request r.key r.method r.path row
    then record row {
      fingerprint = r.fingerprint;
      response = r.response;
      expires_at = r.expires_at;
    }
      ∷ rows
    else row ∷ stored r rows

-- `Store`: the response is the value that `json.Marshal` encodes.
unfoldable pub store : String → String → String → String → Json → ℕ → M (Unit {0})
unfolding call knows
store key method path fingerprint response expires_at = do
  call
  guard (knows ("key" ∷ "method" ∷ "path" ∷ "fingerprint" ∷ "response" ∷ "expires_at" ∷ []))
      external
  modify_db (λ db. record db {
    idempotency =
        stored
          (record {
            key = key;
            method = method;
            path = path;
            fingerprint = fingerprint;
            response = response;
            expires_at = expires_at;
          })
          db.idempotency;
  })

abbrev or_missing : Option IdempotencyRow → M (String × Json × ℕ)
or_missing none = throw row_not_found
or_missing (some row) = pure (row.fingerprint, row.response, row.expires_at)

-- `Get`: an entry that has expired is missing.
unfoldable pub get : String → String → String → M (String × Json × ℕ)
unfolding call now knows
get key method path = do
  call
  guard (knows ("key" ∷ "method" ∷ "path" ∷ "fingerprint" ∷ "response" ∷ "expires_at" ∷ []))
      external
  at ← now
  w ← get_world
  or_missing
      (find_where (λ row. is_request key method path row && ltb at row.expires_at) w.db.idempotency)

-- `Delete`
unfoldable pub delete : String → String → String → M (Unit {0})
unfolding call knows
delete key method path = do
  call
  guard (knows ("key" ∷ "method" ∷ "path" ∷ [])) external
  modify_db
      (λ db. record db { idempotency = delete_where (is_request key method path) db.idempotency })

abbrev pub IsError : {A : Type 0} → Outcome A → Type 0
IsError (ok a w) = ⊥
IsError (err x w) = Unit
IsError (panic w) = ⊥

-- No idempotency entry can be stored, read or deleted: the three statements name a column `key`,
-- and the migration calls it `idempotency_key`. Each call returns an error and changes no table,
-- whatever the outside does.
pub idempotency_unusable :
    (key method path fingerprint : String) (response : Json) (expires_at : ℕ) (e : Env) (w : World)
    → (IsError (store key method path fingerprint response expires_at e w)
        × ((world_of (store key method path fingerprint response expires_at e w)).db ≡ w.db))
      × (IsError (get key method path e w) × ((world_of (get key method path e w)).db ≡ w.db))
      × (IsError (delete key method path e w) × ((world_of (delete key method path e w)).db ≡ w.db))
unfolding store get delete
idempotency_unusable key method path fingerprint response expires_at e w =
    ((ground arith, ground arith), (ground arith, ground arith), (ground arith, ground arith))
