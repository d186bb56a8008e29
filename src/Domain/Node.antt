-- ===== src/Domain/Node.antt =====
-- internal/domain/node/node.go and role.go: the nodes of the cluster and their roles.
use update_service.Base.{ℕ, String, Bool, true, false, Option, List, str_eq, if◌then◌else◌}
use update_service.Domain.Json.{Fields}

pub data NodeStatus : Type 0 where
  starting healthy degraded unhealthy draining_node offline : NodeStatus

pub record Node : Type 0 where
  pub id : String
  pub incarnation_id : String
  pub incarnation_started_at : ℕ
  pub status : NodeStatus
  pub roles : List String
  pub heartbeat_sequence : ℕ
  pub last_heartbeat_at : Option ℕ
  pub heartbeat_deadline_at : Option ℕ
  pub active_job_count : ℕ
  pub active_transfer_count : ℕ
  pub max_concurrent_jobs : Option ℕ
  pub disk_free_bytes : Option ℕ
  pub disk_total_bytes : Option ℕ
  pub cpu_sample : Option Fields
  pub memory_sample : Option Fields
  pub self_checks : Option Fields
  pub draining : Bool
  pub shutdown_deadline_at : Option ℕ
  pub registered_at : ℕ
  pub updated_at : ℕ

pub record NodeCapability : Type 0 where
  pub node_id : String
  pub incarnation_id : String
  pub capability : String
  pub advertised_at : ℕ

pub record Heartbeat : Type 0 where
  pub node_id : String
  pub incarnation_id : String
  pub sequence : ℕ
  pub status : NodeStatus
  pub capabilities : List String
  pub active_jobs : ℕ
  pub active_transfers : ℕ
  pub resources : Option Fields
  pub self_checks : Option Fields
  pub draining : Bool
  pub shutdown_deadline_at : Option ℕ
  pub observed_at : ℕ
  pub heartbeat_deadline_at : ℕ

pub data Role : Type 0 where
  entry worker hybrid : Role

-- `ParseRole`: any other text is the entry role.
unfoldable pub parse_role : String → Role
parse_role s =
    if str_eq s "entry"
    then entry
    else if str_eq s "worker"
    then worker
    else if str_eq s "hybrid"
    then hybrid
    else entry

-- `Role.String`
unfoldable pub role_string : Role → String
role_string entry = "entry"
role_string worker = "worker"
role_string hybrid = "hybrid"

unfoldable pub is_entry : Role → Bool
is_entry entry = true
is_entry hybrid = true
is_entry worker = false

unfoldable pub is_worker : Role → Bool
is_worker worker = true
is_worker hybrid = true
is_worker entry = false
