-- ===== src/Domain/Transition.antt =====
-- internal/domain/operation/transition.go: which status may follow which.
pub mod Diagram
pub mod Paths
use update_service.Base.{
  ℕ, Bool, true, false, ◌&&◌, ◌||◌, not, Option, none, some, List, [], ◌∷◌, ◌==◌, if◌then◌else◌,
}
use update_service.Domain.Operation.{
  OperationStatus, created, queued, dispatched, transferring, transferred, processing, completed,
  failed, timeout, cancelled, other, same_status,
}

-- The three sentinel errors; `%w` keeps the sentinel, which is all that `errors.Is` reads.
pub data TransitionError : Type 0 where
  invalid_transition version_mismatch invalid_state_for_op : TransitionError

-- The map `valid`; `none` is a status that is not a key.
unfoldable pub valid : OperationStatus → Option (List OperationStatus)
valid created = some (queued ∷ cancelled ∷ [])
valid queued = some (dispatched ∷ cancelled ∷ [])
valid dispatched = some (transferring ∷ timeout ∷ failed ∷ cancelled ∷ [])
valid transferring = some (transferred ∷ timeout ∷ failed ∷ cancelled ∷ [])
valid transferred = some (processing ∷ timeout ∷ cancelled ∷ [])
valid processing = some (completed ∷ failed ∷ timeout ∷ cancelled ∷ [])
valid failed = some (queued ∷ failed ∷ timeout ∷ cancelled ∷ [])
valid timeout = some (queued ∷ failed ∷ timeout ∷ cancelled ∷ [])
valid completed = none
valid cancelled = none
valid (other s) = none

-- The loop over the allowed statuses.
unfoldable pub is_allowed : OperationStatus → List OperationStatus → Bool
is_allowed to [] = false
is_allowed to (s ∷ rest) = same_status s to || is_allowed to rest

abbrev check_allowed : OperationStatus → Option (List OperationStatus) → Option TransitionError
check_allowed to none = some invalid_transition
check_allowed to (some allowed) = if is_allowed to allowed then none else some invalid_transition

-- `canTransition`: `none` is Go's nil error.
unfoldable pub can_transition_table : OperationStatus → OperationStatus → Option TransitionError
unfolding valid is_allowed
can_transition_table from to = check_allowed to (valid from)

-- `CanTransition`
unfoldable pub can_transition : OperationStatus → OperationStatus → Bool → Option TransitionError
unfolding can_transition_table
can_transition from to is_retry =
    if same_status from to
    then none
    else if same_status from completed || same_status from cancelled
    then some invalid_transition
    else if is_retry && (not (same_status from failed) && not (same_status from timeout))
    then some invalid_state_for_op
    else can_transition_table from to

-- `ValidateVersion`
unfoldable pub validate_version : ℕ → ℕ → Option TransitionError
validate_version current expected = if current == expected then none else some version_mismatch
