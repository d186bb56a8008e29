-- ===== src/Scheduling.antt =====
-- internal/application/scheduling/scheduler.go: the worker that a dispatch gets.
pub mod Choice
use update_service.Base.{
  String, Bool, false, ◌||◌, Option, none, some, List, [], ◌∷◌, str_eq, find_where,
}
use update_service.Domain.Node.{Node}
use update_service.Effect.{no_healthy_worker, M, ◌>>=◌, pure, throw}
use update_service.Repositories.Nodes

pub record ScheduleResult : Type 0 where
  pub node_id : String
  pub reason : String

-- The loop over the roles of a node.
unfoldable pub has_worker_role : List String → Bool
has_worker_role [] = false
has_worker_role (r ∷ roles) = (str_eq r "worker" || str_eq r "hybrid") || has_worker_role roles

abbrev pub chosen : Option Node → M ScheduleResult
chosen none = throw no_healthy_worker
chosen (some n) = pure (record { node_id = n.id; reason = "first_healthy_worker" })

-- `SelectWorker`
unfoldable pub select_worker : M ScheduleResult
select_worker = do
  candidates ← Nodes.list_healthy
  chosen (find_where (λ (n : Node). has_worker_role n.roles) candidates)
