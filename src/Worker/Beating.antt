-- ===== src/Worker/Beating.antt =====
-- internal/app/role.go: the registration of a node and its heartbeats.
use update_service.Base.{
  ℕ, zero, suc, ◌+◌, String, false, Option, none, some, List, [], ◌∷◌, ◌++◌, if◌then◌else◌,
}
use update_service.Domain.Node.{
  Node, starting, healthy, Heartbeat, parse_role, role_string, is_entry, is_worker,
}
use update_service.Effect.{M, ◌>>=◌, ◌>>◌, pure, now, ignore_error, attempt}
use update_service.Repositories.Nodes
use update_service.Repositories.Heartbeats

-- The roles that a node registers: its own, and again what the role stands for.
unfoldable pub registered_roles : String → List String
unfolding parse_role role_string is_entry is_worker
registered_roles role =
    let r = parse_role role in
    (role_string r ∷ (if is_entry r then "entry" ∷ [] else []))
    ++ (if is_worker r then "worker" ∷ [] else [])

module _ (node_id incarnation_id role : String) (heartbeat_timeout : ℕ) where
  unfoldable pub new_node : ℕ → Node
  unfolding registered_roles
  new_node at = record {
    id = node_id;
    incarnation_id = incarnation_id;
    incarnation_started_at = at;
    status = starting;
    roles = registered_roles role;
    heartbeat_sequence = 0;
    last_heartbeat_at = none;
    heartbeat_deadline_at = none;
    active_job_count = 0;
    active_transfer_count = 0;
    max_concurrent_jobs = none;
    disk_free_bytes = none;
    disk_total_bytes = none;
    cpu_sample = none;
    memory_sample = none;
    self_checks = none;
    draining = false;
    shutdown_deadline_at = none;
    registered_at = at;
    updated_at = at;
  }

  -- `registerNode`
  unfoldable pub register_node : M (Unit {0})
  unfolding now new_node
  register_node = do at ← now; Nodes.upsert (new_node at)

  unfoldable pub new_heartbeat : ℕ → ℕ → Heartbeat
  unfolding parse_role role_string
  new_heartbeat sequence at = record {
    node_id = node_id;
    incarnation_id = incarnation_id;
    sequence = sequence;
    status = healthy;
    capabilities = role_string (parse_role role) ∷ [];
    active_jobs = 0;
    active_transfers = 0;
    resources = none;
    self_checks = none;
    draining = false;
    shutdown_deadline_at = none;
    observed_at = at;
    heartbeat_deadline_at = at + heartbeat_timeout;
  }

  abbrev beaten : Option (Unit {0}) → ℕ → ℕ → M (Unit {0})
  beaten none sequence at = pure tt
  beaten (some _) sequence at = do
    ignore_error (Nodes.update_heartbeat node_id sequence (at + heartbeat_timeout))
    ignore_error (Nodes.update_status node_id healthy)

  -- One tick of the heartbeat: a heartbeat that cannot be stored is skipped.
  unfoldable pub tick : ℕ → M (Unit {0})
  unfolding now attempt ignore_error new_heartbeat
  tick sequence = do
    at ← now
    r ← attempt (Heartbeats.insert (new_heartbeat sequence at))
    beaten r sequence at

  -- The loop: the sequence numbers of `n` ticks behind `sequence`.
  unfoldable pub ticks : ℕ → ℕ → M (Unit {0})
  unfolding tick
  ticks zero sequence = pure tt
  ticks (suc n) sequence = do tick (suc sequence); ticks n (suc sequence)
