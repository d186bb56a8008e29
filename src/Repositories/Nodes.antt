-- ===== src/Repositories/Nodes.antt =====
-- internal/infrastructure/mariadb/repositories/node_repository.go
pub mod Registry
use update_service.Base.{
  ℕ, String, Bool, true, false, Option, some, List, [], ◌∷◌, if◌then◌else◌, str_eq, find_key,
  select_where, update_where, order_by,
}
use update_service.Domain.Node.{Node, NodeStatus, healthy, degraded}
use update_service.Effect.{M, ◌>>=◌, ◌>>◌, pure, get_world, modify_db, call, now}

-- `ON DUPLICATE KEY UPDATE`: everything but the id and the time of registration.
unfoldable pub merged_node : Node → Node → Node
merged_node n row = record n { id = row.id; registered_at = row.registered_at }

unfoldable pub upserted : Node → List Node → List Node
upserted n [] = n ∷ []
upserted n (row ∷ rows) =
    if str_eq row.id n.id then merged_node n row ∷ rows else row ∷ upserted n rows

-- `Upsert`
unfoldable pub upsert : Node → M (Unit {0})
unfolding call
upsert n = do call; modify_db (λ db. record db { nodes = upserted n db.nodes })

-- `GetByID`
unfoldable pub get_by_id : String → M (Option Node)
unfolding call
get_by_id id = do call; w ← get_world; pure (find_key Node.id id w.db.nodes)

-- `UpdateStatus`
unfoldable pub update_status : String → NodeStatus → M (Unit {0})
unfolding call now
update_status id status = do
  at ← now
  call
  modify_db (λ db. record db {
    nodes =
        update_where (λ n. str_eq n.id id) (λ n. record n { status = status; updated_at = at })
          db.nodes;
  })

-- `UpdateHeartbeat`
unfoldable pub update_heartbeat : String → ℕ → ℕ → M (Unit {0})
unfolding call now
update_heartbeat id sequence deadline_at = do
  beat ← now
  at ← now
  call
  modify_db (λ db. record db {
    nodes =
        update_where (λ n. str_eq n.id id)
          (λ n. record n {
            heartbeat_sequence = sequence;
            last_heartbeat_at = some beat;
            heartbeat_deadline_at = some deadline_at;
            updated_at = at;
          })
          db.nodes;
  })

-- `status IN (?, ?)`
abbrev pub is_healthy : NodeStatus → Bool
is_healthy healthy = true
is_healthy degraded = true
is_healthy _ = false

abbrev pub healthy_nodes : List Node → List Node
healthy_nodes nodes = order_by Node.updated_at (select_where (λ n. is_healthy n.status) nodes)

-- `ListHealthy`
unfoldable pub list_healthy : M (List Node)
unfolding call
list_healthy = do call; w ← get_world; pure (healthy_nodes w.db.nodes)
