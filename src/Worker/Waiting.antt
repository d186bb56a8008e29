-- ===== src/Worker/Waiting.antt =====
-- role.go: how long a worker waits for the transfer of an operation before it processes it.
use update_service.Base.{◌≡◌, refl, String, Bool, true, none, List, [], ◌∷◌, map}
use update_service.Domain.Event.{OperationEvent}
use update_service.Effect.{Env, World, ok}
use update_service.Coordinator.{marshal_event, handle_event}
use update_service.Worker.{
  Transfers, has_active, take_event, take_events, check_transfer_and_proceed,
}

module _ (node_id role : String) (has_indexer : Bool) (staging_dir : String) (operation_id : String)
    (e : Env) where
  event_unread :
      (evt : OperationEvent) (active : Transfers) (w : World)
      → take_event node_id role has_indexer staging_dir (marshal_event evt) active e w ≡ ok active w
  unfolding take_event marshal_event handle_event
  event_unread evt active w = refl

  events_unread :
      (events : List OperationEvent) (active : Transfers) (w : World)
      → take_events node_id role has_indexer staging_dir (map marshal_event events) active e w
        ≡ ok active w
  unfolding take_events
  events_unread [] active w = refl
  events_unread (evt ∷ rest) active w = rw (event_unread evt active w) (events_unread rest active w)

  -- A worker that has an active transfer for the operation waits for as long as the events come in the
  -- form in which the program publishes them, whatever they are: the wait never ends.
  pub check-marshal_event :
      (rounds : List (List OperationEvent)) (active : Transfers) (w : World)
      → has_active operation_id active ≡ true
      → check_transfer_and_proceed node_id role has_indexer staging_dir operation_id
          (map (map marshal_event) rounds)
          active
          e
          w
        ≡ ok none w
  unfolding check_transfer_and_proceed
  check-marshal_event [] active w waits = rw waits refl
  check-marshal_event (events ∷ rounds) active w waits =
      rw (waits, events_unread events active w) (check-marshal_event rounds active w waits)
