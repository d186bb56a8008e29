-- ===== src/Coordinator/Unheard.antt =====
-- role.go: what the consumer makes of the events as this program publishes them.
use update_service.Base.{◌≡◌, refl, String, Bool}
use update_service.Domain.Event.{OperationEvent}
use update_service.Effect.{Env, World, ok}
use update_service.Coordinator.{marshal_event, handle_event, consume}

-- An event is published under the names of its Go fields and read under tags with underscores: its
-- type is read as the empty text, so the consumer, whatever the event, does nothing with it.
pub consume-marshal_event :
    (node_id : String) (has_indexer : Bool) (evt : OperationEvent) (e : Env) (w : World)
    → consume node_id has_indexer (marshal_event evt) e w ≡ ok tt w
unfolding consume marshal_event handle_event
consume-marshal_event node_id has_indexer evt e w = refl
