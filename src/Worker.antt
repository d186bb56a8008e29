-- ===== src/Worker.antt =====
-- internal/app/role.go: the commands that a worker takes, and the table of active transfers. The table is the list of its keys.
pub mod Beating
pub mod Waiting
pub mod Ending
pub mod Alive
use update_service.Base.{
  ℕ, zero, suc, ◌+◌, String, Bool, true, false, not, ◌||◌, Option, none, some, List, [], ◌∷◌, ◌++◌,
  if◌then◌else◌, cat, str_eq, contains, select_where,
}
use update_service.Domain.Json.{Json, null, str, num, obj, Fields, end, field, member, as_string}
use update_service.Domain.Event
use update_service.Domain.Event.{
  OperationEvent, EventType, event_type_string, operation_transferred, transfer_verified,
  processing_succeeded,
}
use update_service.Domain.Node.{
  Node, Role, starting, healthy, Heartbeat, parse_role, role_string, is_entry, is_worker,
}
use update_service.Effect.{World, M, ◌>>=◌, ◌>>◌, pure, nil_panic, now, ignore_error, attempt}
use update_service.Repositories.Events
use update_service.Repositories.Nodes
use update_service.Repositories.Heartbeats
use update_service.Transfer.Accept.{accept_transfer, subscribe}
use update_service.Transfer.Active.{ActiveTransfer}
use update_service.Transfer.Sender.{publish_event}
use update_service.Coordinator.{
  DecodedEvent, generate_event_id, marshal_event, unmarshal_event, mark, verified, handle_event,
  decode_text, decode_fields, ◌>>=?◌,
}

-- `rm.activeTransfers`
abbrev pub Transfers : Type 0
Transfers = List String

-- `ProcessCommand`
pub record ProcessCommand : Type 0 where
  pub command_id : String
  pub operation_id : String
  pub job_id : String
  pub type : String
  pub payload : Fields

-- `json.Unmarshal(msg.Data(), &cmd)` of a command whose keys are spelled as the tags are.
unfoldable pub unmarshal_command : Json → Option ProcessCommand
unmarshal_command null =
    some (record { command_id = ""; operation_id = ""; job_id = ""; type = ""; payload = end })
unmarshal_command (obj fs) = decode_text (member "command_id" fs) >>=? λ command_id.
    decode_text (member "operation_id" fs) >>=? λ operation_id.
    decode_text (member "job_id" fs) >>=? λ job_id. decode_text (member "type" fs) >>=? λ type.
    decode_fields (member "payload" fs) >>=? λ payload. some (record {
      command_id = command_id;
      operation_id = operation_id;
      job_id = job_id;
      type = type;
      payload = payload;
    })
unmarshal_command _ = none

-- Whether some active transfer's id contains the operation's.
unfoldable pub has_active : String → Transfers → Bool
has_active operation_id [] = false
has_active operation_id (id ∷ ids) = contains id operation_id || has_active operation_id ids

-- The loop that deletes from `rm.activeTransfers`.
unfoldable pub without : String → Transfers → Transfers
without operation_id ids = select_where (λ id. not (contains id operation_id)) ids

-- `rm.activeTransfers[id] = true`
unfoldable pub with_transfer : String → Transfers → Transfers
with_transfer id ids = id ∷ select_where (λ other. not (str_eq other id)) ids

-- What the handler of a command tells JetStream, and what it leaves. `waiting` is a handler that has
-- not returned while the messages at hand have been handled.
pub data Reply : Type 0 where
  ack nak waiting : Reply

pub record Handled : Type 0 where
  pub reply : Reply
  pub transfers : Transfers
  pub accepted : Option ActiveTransfer

-- `RoleManager`: its node, its role's text, whether there is an indexer, and its directory.
module _ (node_id role : String) (has_indexer : Bool) (staging_dir : String) where
  -- `handleWorkerTransferVerified`
  unfoldable pub handle_worker_transfer_verified : String → Fields → Transfers → M Transfers
  unfolding without
  handle_worker_transfer_verified operation_id payload active = do
    mark node_id verified operation_transferred false operation_id payload
    pure (without operation_id active)

  -- The switch of the event consumer.
  unfoldable pub handle_node_event : DecodedEvent → Transfers → M Transfers
  unfolding event_type_string handle_worker_transfer_verified
  handle_node_event evt active =
      if str_eq evt.event_type (event_type_string transfer_verified)
      then (if str_eq role "worker"
          then handle_worker_transfer_verified evt.operation_id evt.payload active
          else (do
            handle_event node_id has_indexer evt.event_type evt.operation_id evt.payload
            pure active))
      else (do
        handle_event node_id has_indexer evt.event_type evt.operation_id evt.payload
        pure active)

  abbrev pub handle_decoded : Option DecodedEvent → Transfers → M Transfers
  handle_decoded none active = pure active
  handle_decoded (some evt) active = handle_node_event evt active

  -- The event consumer takes one message, and a list of them.
  unfoldable pub take_event : Json → Transfers → M Transfers
  unfolding unmarshal_event handle_node_event
  take_event content active = handle_decoded (unmarshal_event content) active

  unfoldable pub take_events : List Json → Transfers → M Transfers
  take_events [] active = pure active
  take_events (content ∷ rest) active = do
    active' ← take_event content active
    take_events rest active'

  -- `checkTransferAndProceed`, which calls itself after a pause: a round is the messages that the event
  -- consumer takes during one pause. `none` means that it waits when the rounds are over.
  unfoldable pub check_transfer_and_proceed :
      String → List (List Json) → Transfers → M (Option Transfers)
  unfolding has_active take_events
  check_transfer_and_proceed operation_id [] active =
      if has_active operation_id active then pure none else pure (some active)
  check_transfer_and_proceed operation_id (messages ∷ rounds) active =
      let rest : M (Option Transfers) = (do
        active' ← take_events messages active
        check_transfer_and_proceed operation_id rounds active') in
      if has_active operation_id active then rest else pure (some active)

  unfoldable pub success_event : ProcessCommand → String → ℕ → OperationEvent
  success_event cmd id at = record {
    id = id;
    operation_id = cmd.operation_id;
    event_type = processing_succeeded;
    job_id = none;
    attempt_id = none;
    transfer_id = none;
    payload = field "command_id" (str cmd.command_id) (
        field "job_id" (str cmd.job_id) (field "result" (obj (field "status" (str "ok") end)) end));
    correlation_id = cmd.operation_id;
    issued_at = at;
    actor_node_id = node_id;
    version = 1;
  }

  abbrev appended : Option (Unit {0}) → OperationEvent → M (Unit {0})
  appended none evt = pure tt
  appended (some _) evt = ignore_error (publish_event (marshal_event evt))

  -- The part of `handleProcessJob` behind the check: two seconds, or the end of the context.
  unfoldable pub process : Bool → ProcessCommand → M (Unit {0})
  unfolding now generate_event_id success_event attempt ignore_error
  process is_cancelled cmd = if is_cancelled then pure tt else (do
    at ← now
    id ← generate_event_id
    let evt = success_event cmd id at
    r ← attempt (Events.append evt)
    appended r evt)

  abbrev proceeded : Bool → ProcessCommand → Transfers → Option Transfers → M Handled
  proceeded is_cancelled cmd active none =
      pure (record { reply = waiting; transfers = active; accepted = none })
  proceeded is_cancelled cmd active (some active') = do
    process is_cancelled cmd
    pure (record { reply = ack; transfers = active'; accepted = none })

  -- `handleProcessJob`
  unfoldable pub handle_process_job :
      Bool → List (List Json) → ProcessCommand → Transfers → M Handled
  unfolding check_transfer_and_proceed process
  handle_process_job is_cancelled rounds cmd active = do
    r ← check_transfer_and_proceed cmd.operation_id rounds active
    proceeded is_cancelled cmd active r

  unfoldable pub cancelled_event : ProcessCommand → String → ℕ → OperationEvent
  cancelled_event cmd id at = record {
    id = id;
    operation_id = cmd.operation_id;
    event_type = Event.cancelled;
    job_id = none;
    attempt_id = none;
    transfer_id = none;
    payload = field "command_id" (str cmd.command_id) (field "job_id" (str cmd.job_id) end);
    correlation_id = cmd.operation_id;
    issued_at = at;
    actor_node_id = node_id;
    version = 1;
  }

  -- `handleCancelJob`
  unfoldable pub handle_cancel_job : ProcessCommand → M (Unit {0})
  unfolding now generate_event_id cancelled_event ignore_error
  handle_cancel_job cmd = do
    at ← now
    id ← generate_event_id
    let evt = cancelled_event cmd id at
    ignore_error (Events.append evt)
    ignore_error (publish_event (marshal_event evt))

  -- The log line behind an acceptance takes `cmd.Payload["attempt_id"].(string)`.
  abbrev accepted_with : Option Json → String → ActiveTransfer → Transfers → M Handled
  accepted_with (some (str attempt_id)) transfer_id a active =
      pure (record { reply = ack; transfers = with_transfer transfer_id active; accepted = some a })
  accepted_with _ transfer_id a active = nil_panic

  abbrev started : Fields → Transfers → Option ActiveTransfer → M Handled
  started payload active none = pure (record { reply = nak; transfers = active; accepted = none })
  started payload active (some a) =
      accepted_with (member "attempt_id" payload) (as_string (member "transfer_id" payload)) a
        active

  -- `START_TRANSFER`, on a node with a receiver.
  unfoldable pub handle_start_transfer : ProcessCommand → Transfers → M Handled
  unfolding attempt with_transfer
  handle_start_transfer cmd active = do
    r ← attempt (accept_transfer node_id staging_dir cmd.payload)
    started cmd.payload active r

  abbrev acknowledged : Transfers → M Handled
  acknowledged active = pure (record { reply = ack; transfers = active; accepted = none })

  unfoldable pub handle_command : Bool → List (List Json) → ProcessCommand → Transfers → M Handled
  unfolding handle_process_job handle_cancel_job handle_start_transfer
  handle_command is_cancelled rounds cmd active =
      if str_eq cmd.type "PROCESS_UPDATE"
      then handle_process_job is_cancelled rounds cmd active
      else if str_eq cmd.type "CANCEL_UPDATE"
      then (do handle_cancel_job cmd; acknowledged active)
      else if str_eq cmd.type "START_TRANSFER"
      then handle_start_transfer cmd active
      else acknowledged active

  abbrev handle_unmarshalled :
      Bool → List (List Json) → Option ProcessCommand → Transfers → M Handled
  handle_unmarshalled is_cancelled rounds none active = acknowledged active
  handle_unmarshalled is_cancelled rounds (some cmd) active =
      handle_command is_cancelled rounds cmd active

  -- The handler of the command consumer.
  unfoldable pub take_command : Bool → List (List Json) → Json → Transfers → M Handled
  unfolding unmarshal_command handle_command
  take_command is_cancelled rounds content active =
      handle_unmarshalled is_cancelled rounds (unmarshal_command content) active
