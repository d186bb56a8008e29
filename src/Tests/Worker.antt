-- ===== src/Tests/Worker.antt =====
-- The role manager at concrete inputs.
use update_service.Base.{◌≡◌, refl, ◌∷◌, [], true, false, none, some, map, contains}
use update_service.Domain.Json.{Json, str, obj, field, end}
use update_service.Domain.Event.{OperationEvent, transfer_verified}
use update_service.Domain.Node.{Node, parse_role, is_worker}
use update_service.Effect.{ok, Returns, ◌>>◌}
use update_service.Repositories.Nodes
use update_service.Effect.Post.{Post}
use update_service.Coordinator.{DecodedEvent, unmarshal_event, marshal_event}
use update_service.Worker.{has_active, check_transfer_and_proceed}
use update_service.Worker.Beating.{register_node, tick}
use update_service.Worker.Alive.{IsAlive, tick-IsAlive}
use update_service.Worker.Waiting.{check-marshal_event}
use update_service.Worker.Ending.{IsOver, check-ends, check-not_worker}
use update_service.Tests.Worlds.{world, broken, reliable, reliable-IsReliable}

-- A TransferVerified event as the worker publishes it.
abbrev pub told : OperationEvent
told = record {
  id = "evt-1";
  operation_id = "op-1";
  event_type = transfer_verified;
  job_id = none;
  attempt_id = none;
  transfer_id = some "xfer-op-1";
  payload = end;
  correlation_id = "op-1";
  issued_at = 5;
  actor_node_id = "node-b";
  version = 1;
}

-- The message that the consumer would read as this event.
abbrev tagged : Json
tagged = obj (field "event_type" (str "TransferVerified") (field "operation_id" (str "op-1") end))

abbrev read_event : DecodedEvent
read_event = record { event_type = "TransferVerified"; operation_id = "op-1"; payload = end }

tagged-read : unmarshal_event tagged ≡ some read_event
unfolding unmarshal_event
tagged-read = refl

active-now : has_active "op-1" ("xfer-op-1" ∷ []) ≡ true
unfolding has_active contains
active-now = refl

check-marshal_event_example :
    check_transfer_and_proceed "node-b" "worker" false "/staging" "op-1"
      (map (map marshal_event) ((told ∷ []) ∷ ((told ∷ []) ∷ [])))
      ("xfer-op-1" ∷ [])
      reliable
      world
    ≡ ok none world
check-marshal_event_example =
    check-marshal_event "node-b" "worker" false "/staging" "op-1" reliable
      ((told ∷ []) ∷ ((told ∷ []) ∷ [])) ("xfer-op-1" ∷ []) world active-now

check-not_worker_example :
    Post
      (check_transfer_and_proceed "node-b" "hybrid" false "/staging" "op-1"
        ((tagged ∷ []) ∷ [])
        ("xfer-op-1" ∷ [])
        reliable
        world)
      (λ r _. r ≡ none)
      (λ _ _. ⊥)
check-not_worker_example =
    check-not_worker "node-b" "hybrid" false "/staging" "op-1" reliable ((tagged ∷ []) ∷ [])
      ("xfer-op-1" ∷ []) world refl active-now

check-ends_example :
    Post
      (check_transfer_and_proceed "node-b" "worker" false "/staging" "op-1"
        ([] ∷ ((marshal_event told ∷ (tagged ∷ [])) ∷ []))
        ("xfer-op-1" ∷ [])
        broken
        world)
      (λ r _. IsOver "op-1" r)
      (λ _ _. ⊥)
check-ends_example =
    check-ends "node-b" "worker" false "/staging" "op-1" broken refl tagged read_event tagged-read
      refl refl ([] ∷ []) [] (marshal_event told ∷ []) [] ("xfer-op-1" ∷ []) world

tick-IsAlive_example :
    Returns
      ((do
        register_node "node-c" "i-2" "hybrid" 15
        tick "node-c" "i-2" "hybrid" 15 1
        Nodes.get_by_id "node-c")
        reliable world)
      (λ o _.
        (n : Node) × ((o ≡ some n)
          × IsAlive "node-c" "i-2" "hybrid" 15 reliable reliable-IsReliable 1 n))
unfolding parse_role is_worker
tick-IsAlive_example =
    tick-IsAlive "node-c" "i-2" "hybrid" 15 reliable reliable-IsReliable world refl refl
