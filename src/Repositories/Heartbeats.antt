-- ===== src/Repositories/Heartbeats.antt =====
-- internal/infrastructure/mariadb/repositories/heartbeat_repository.go
use update_service.Base.{
  String, Option, ◌∷◌, str_eq, select_where, greatest, find_where, Bool, ◌&&◌, ◌==◌, is_some, not,
}
use update_service.Domain.Node.{Heartbeat}
use update_service.Effect.{external, M, ◌>>=◌, ◌>>◌, pure, guard, get_world, modify_db, call}

-- The primary key of the table.
abbrev pub same_beat : Heartbeat → Heartbeat → Bool
same_beat hb row =
    str_eq row.node_id hb.node_id
    && (str_eq row.incarnation_id hb.incarnation_id && (row.sequence == hb.sequence))

-- `Insert`
unfoldable pub insert : Heartbeat → M (Unit {0})
unfolding call
insert hb = do
  call
  w ← get_world
  guard (not (is_some (find_where (same_beat hb) w.db.heartbeats))) external
  modify_db (λ db. record db { heartbeats = hb ∷ db.heartbeats })

-- `GetLatest`: `ORDER BY sequence DESC LIMIT 1`, nil if there is none.
unfoldable pub get_latest : String → M (Option Heartbeat)
unfolding call
get_latest node_id = do
  call
  w ← get_world
  pure (
      greatest Heartbeat.sequence
        (select_where (λ (hb : Heartbeat). str_eq hb.node_id node_id) w.db.heartbeats))
