-- ===== src/Coordinator.antt =====
-- internal/app/role.go: the coordinator's handlers of the events that the workers publish. Each
-- handler logs its errors and returns nothing. `Index` of internal/infrastructure/elasticsearch
-- queues a document, or saves it in a file if the queue is full: here, it is kept in a list.
pub mod Lost
pub mod Returning
pub mod Unheard
use update_service.Base.{
  ℕ, String, Bool, false, ◌||◌, Option, none, some, ◌∷◌, cat, str_eq, if◌then◌else◌,
}
use update_service.Domain.Json.{Json, null, bool, num, str, arr, obj, Fields, end, field, member}
use update_service.Domain.Operation.{
  Operation, transferred, completed, failed, cancelled, verifying, stage_completed, stage_failed,
  stage_cancelled,
}
use update_service.Domain.Event
use update_service.Domain.Event.{
  EventType, event_type_string, OperationEvent, operation_transferred, operation_completed,
  operation_failed, operation_cancelled, processing_succeeded, processing_failed, transfer_verified,
}
use update_service.Effect.{World, ok, M, ◌>>=◌, ◌>>◌, pure, now, random_hex, ignore_error}
use update_service.Repositories.Operations
use update_service.Repositories.Events

-- `generateEventID`
unfoldable pub generate_event_id : M String
unfolding random_hex
generate_event_id = do hex ← random_hex; pure (cat "evt-" hex)

-- `elasticIndexer.Index`
unfoldable pub index : Operation → OperationEvent → M (Unit {0})
index op evt e w = ok tt (record w { indexed = (op.id, evt) ∷ w.indexed })

-- What each handler writes into the operation: the version stays.
unfoldable pub succeeded : Fields → Operation → ℕ → Operation
succeeded payload op at = record op { status = completed; stage = stage_completed; updated_at = at }

unfoldable pub failed_with : Fields → Operation → ℕ → Operation
failed_with payload op at = record op {
  status = failed;
  stage = stage_failed;
  updated_at = at;
  error = some (record {
    code = "PROCESSING_FAILED";
    message = "Worker reported processing failure";
    details = some payload;
  });
}

unfoldable pub called_off : Fields → Operation → ℕ → Operation
called_off payload op at = record op {
  status = cancelled;
  stage = stage_cancelled;
  updated_at = at;
}

unfoldable pub verified : Fields → Operation → ℕ → Operation
verified payload op at = record op { status = transferred; stage = verifying; updated_at = at }

unfoldable pub outcome_event : String → EventType → String → Fields → String → ℕ → OperationEvent
outcome_event node_id type operation_id payload id at = record {
  id = id;
  operation_id = operation_id;
  event_type = type;
  job_id = none;
  attempt_id = none;
  transfer_id = none;
  payload = field "payload" (obj payload) end;
  correlation_id = operation_id;
  issued_at = at;
  actor_node_id = node_id;
  version = 1;
}

abbrev optional_text : Option String → Json
optional_text none = null
optional_text (some s) = str s

-- `json.Marshal(evt)`: the fields have no tags, so the keys are their Go names.
unfoldable pub marshal_event : OperationEvent → Json
unfolding event_type_string
marshal_event evt = obj (
    field "ID" (str evt.id) (
      field "OperationID" (str evt.operation_id) (
        field "EventType" (str (event_type_string evt.event_type)) (
          field "JobID" (optional_text evt.job_id) (
            field "AttemptID" (optional_text evt.attempt_id) (
              field "TransferID" (optional_text evt.transfer_id) (
                field "Payload" (obj evt.payload) (
                  field "CorrelationID" (str evt.correlation_id) (
                    field "IssuedAt" (num evt.issued_at) (
                      field "ActorNodeID" (str evt.actor_node_id)
                        (field "Version" (num evt.version) end)))))))))))

pub record DecodedEvent : Type 0 where
  pub event_type : String
  pub operation_id : String
  pub payload : Fields

infixl 5 ◌>>=?◌
abbrev pub ◌>>=?◌ : {A B : Type 0} → Option A → (A → Option B) → Option B
none >>=? f = none
some a >>=? f = f a

-- A key with a tag: what is missing or null leaves the zero value, another type is an error.
abbrev pub decode_text : Option Json → Option String
decode_text none = some ""
decode_text (some null) = some ""
decode_text (some (str s)) = some s
decode_text (some _) = none

abbrev pub decode_fields : Option Json → Option Fields
decode_fields none = some end
decode_fields (some null) = some end
decode_fields (some (obj fs)) = some fs
decode_fields (some _) = none

-- encoding/json takes a key in any case: the tag's spelling, or else the capitalised one.
abbrev either_case : Option Json → Option Json → Option Json
either_case none v = v
either_case (some v) _ = some v

-- `json.Unmarshal(msg.Data(), &evt)` into the struct with tags, of which the handlers use three
-- fields.
unfoldable pub unmarshal_event : Json → Option DecodedEvent
unmarshal_event null = some (record { event_type = ""; operation_id = ""; payload = end })
unmarshal_event (obj fs) = decode_text (member "event_type" fs) >>=? λ type.
    decode_text (member "operation_id" fs) >>=? λ operation_id.
    decode_fields (either_case (member "payload" fs) (member "Payload" fs)) >>=? λ payload.
    some (record { event_type = type; operation_id = operation_id; payload = payload })
unmarshal_event _ = none

-- `RoleManager`: its node, and whether there is an indexer.
module _ (node_id : String) where
  -- The body of a handler behind the read, which stops at a missing operation.
  unfoldable pub mark_loaded :
      (Fields → Operation → ℕ → Operation)
      → EventType
      → Bool
      → String
      → Fields
      → Option Operation
      → M (Unit {0})
  unfolding now ignore_error generate_event_id index
  mark_loaded change type indexes operation_id payload none = pure tt
  mark_loaded change type indexes operation_id payload (some loaded) = do
    at ← now
    let op = change payload loaded at
    Operations.update op
    id ← generate_event_id
    let evt = outcome_event node_id type operation_id payload id at
    ignore_error (Events.append evt)
    if indexes then index op evt else pure tt

  unfoldable pub mark :
      (Fields → Operation → ℕ → Operation) → EventType → Bool → String → Fields → M (Unit {0})
  unfolding ignore_error mark_loaded
  mark change type indexes operation_id payload = ignore_error (do
    op ← Operations.get_by_id operation_id
    mark_loaded change type indexes operation_id payload op)

module _ (node_id : String) (has_indexer : Bool) where
  unfoldable pub handle_processing_succeeded : String → Fields → M (Unit {0})
  handle_processing_succeeded = mark node_id succeeded operation_completed has_indexer

  unfoldable pub handle_processing_failed : String → Fields → M (Unit {0})
  handle_processing_failed = mark node_id failed_with operation_failed has_indexer

  unfoldable pub handle_cancelled : String → Fields → M (Unit {0})
  handle_cancelled = mark node_id called_off operation_cancelled has_indexer

  unfoldable pub handle_transfer_verified : String → Fields → M (Unit {0})
  handle_transfer_verified = mark node_id verified operation_transferred false

  -- The switch of the event consumer, on a node that is no worker.
  unfoldable pub handle_event : String → String → Fields → M (Unit {0})
  unfolding event_type_string handle_processing_succeeded handle_processing_failed handle_cancelled
      handle_transfer_verified
  handle_event type operation_id payload =
      if str_eq type (event_type_string processing_succeeded)
      then handle_processing_succeeded operation_id payload
      else if str_eq type (event_type_string processing_failed)
      then handle_processing_failed operation_id payload
      else if str_eq type (event_type_string Event.cancelled)
      then handle_cancelled operation_id payload
      else if str_eq type (event_type_string transfer_verified)
      then handle_transfer_verified operation_id payload
      else pure tt

  abbrev pub handle_decoded : Option DecodedEvent → M (Unit {0})
  handle_decoded none = pure tt
  handle_decoded (some evt) = handle_event evt.event_type evt.operation_id evt.payload

  -- What the event consumer does with a message: one that cannot be read is acknowledged and dropped.
  unfoldable pub consume : Json → M (Unit {0})
  unfolding unmarshal_event
  consume content = handle_decoded (unmarshal_event content)
