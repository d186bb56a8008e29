-- ===== src/Domain/Transition/Diagram.antt =====
-- internal/domain/operation/transition.go: the guard decides a diagram of statuses.
use update_service.Base.{
  Bool, Bool-cases, not, ◌&&◌, true, false, ◌≡◌, refl, ◌⊎◌, inl, inr, ◌↔◌, ◌≢◌, none, arith,
  str_eq_refl, eq_iff,
}
use update_service.Domain.Operation.{
  OperationStatus, created, queued, dispatched, transferring, transferred, processing, completed,
  failed, timeout, cancelled, other, same_status,
}
use update_service.Domain.Transition.{can_transition, can_transition_table}

-- The diagram: an operation moves forward, fails or times out once a worker has it, may be
-- cancelled until it ends, and is queued again from FAILED and TIMEOUT.
infix 40 ◌⟶◌
pub data ◌⟶◌ : OperationStatus → OperationStatus → Type 0 where
  upload : created ⟶ queued
  dispatch : queued ⟶ dispatched
  start : dispatched ⟶ transferring
  verify : transferring ⟶ transferred
  process : transferred ⟶ processing
  finish : processing ⟶ completed
  lose_command : dispatched ⟶ failed
  lose_transfer : transferring ⟶ failed
  lose_work : processing ⟶ failed
  expire_command : dispatched ⟶ timeout
  expire_transfer : transferring ⟶ timeout
  expire_wait : transferred ⟶ timeout
  expire_work : processing ⟶ timeout
  retry_failed : failed ⟶ queued
  retry_timeout : timeout ⟶ queued
  fail_late : timeout ⟶ failed
  expire_late : failed ⟶ timeout
  drop_created : created ⟶ cancelled
  drop_queued : queued ⟶ cancelled
  drop_dispatched : dispatched ⟶ cancelled
  drop_transferring : transferring ⟶ cancelled
  drop_transferred : transferred ⟶ cancelled
  drop_processing : processing ⟶ cancelled
  drop_failed : failed ⟶ cancelled
  drop_timeout : timeout ⟶ cancelled

pub ruleset forward = (upload, dispatch, start, verify, process, finish)

ruleset losses = (
  lose_command, lose_transfer, lose_work, expire_command, expire_transfer, expire_wait, expire_work,
)

ruleset returns = (retry_failed, retry_timeout, fail_late, expire_late)

pub ruleset drops = (
  drop_created, drop_queued, drop_dispatched, drop_transferring, drop_transferred, drop_processing,
  drop_failed, drop_timeout,
)

pub same_status→≡ : (a b : OperationStatus) → same_status a b ≡ true → a ≡ b
same_status→≡ (other s) (other t) h = ground (arith, eq_iff s t)
same_status→≡ a b h = ground arith

pub same_status_refl : (a : OperationStatus) → same_status a a ≡ true
same_status_refl (other s) = str_eq_refl s
same_status_refl created = refl
same_status_refl _ = refl

-- What the retry flag asks of the old status.
abbrev pub IsRetryable : OperationStatus → Type 0
IsRetryable from = (from ≡ failed) ⊎ (from ≡ timeout)

edge_sound :
    (from to : OperationStatus)
    → same_status from to ≡ false
    → can_transition_table from to ≡ none
    → from ⟶ to
unfolding can_transition_table
edge_sound created to d h = grind (arith, forward, drops, same_status→≡)
edge_sound queued to d h = grind (arith, forward, drops, same_status→≡)
edge_sound from to d h = grind (arith, forward, losses, returns, drops, same_status→≡)

edge_complete : {from to : OperationStatus} → from ⟶ to → can_transition_table from to ≡ none
unfolding can_transition_table
edge_complete upload = refl
edge_complete _ = refl

-- An edge joins two different statuses, and leaves neither of the terminal ones.
pub edge-open :
    {from to : OperationStatus}
    → from ⟶ to
    → (same_status from to ≡ false)
      × (same_status from completed ≡ false)
      × (same_status from cancelled ≡ false)
edge-open upload = (refl, refl, refl)
edge-open _ = (refl, refl, refl)

retryable_test :
    (from : OperationStatus)
    → IsRetryable from
    → not (same_status from failed) && not (same_status from timeout) ≡ false
retryable_test from (inl e) = rw e
retryable_test from (inr e) = rw e

allowed :
    (from to : OperationStatus) (is_retry : Bool)
    → (is_retry ≡ true → IsRetryable from)
    → from ⟶ to
    → can_transition from to is_retry ≡ none
unfolding can_transition
allowed from to false r e = ground (arith, edge-open e, edge_complete e)
allowed from to true r e =
    ground (arith, edge-open e, edge_complete e, retryable_test from (r refl))

accepted_same : (a : OperationStatus) (is_retry : Bool) → can_transition a a is_retry ≡ none
unfolding can_transition
accepted_same a is_retry = rw (same_status_refl a)

accepted_by_table :
    (from to : OperationStatus) (is_retry : Bool)
    → same_status from to ≡ false
    → can_transition from to is_retry ≡ none
    → can_transition_table from to ≡ none
unfolding can_transition
accepted_by_table from to is_retry d h = ground arith

accepted-IsRetryable :
    (from to : OperationStatus)
    → same_status from to ≡ false
    → can_transition from to true ≡ none
    → IsRetryable from
unfolding can_transition
accepted-IsRetryable from to d h =
    ground (arith, same_status→≡ from failed, same_status→≡ from timeout)

-- Without the retry flag the guard accepts a change of status exactly when the status stays the
-- same or the change is an edge of the diagram.
pub can_transition_iff :
    (from to : OperationStatus)
    → (can_transition from to false ≡ none) ↔ ((from ≡ to) ⊎ (from ⟶ to))
can_transition_iff from to = (sound, complete)
  where
    sound : can_transition from to false ≡ none → (from ≡ to) ⊎ (from ⟶ to)
    sound h = elim (Bool-cases (same_status from to)) [
      | inl e ↦ inl (same_status→≡ from to e)
      | inr d ↦ inr (edge_sound from to d (accepted_by_table from to false d h))
    ]

    complete : (from ≡ to) ⊎ (from ⟶ to) → can_transition from to false ≡ none
    complete (inl e) = rw e (accepted_same to false)
    complete (inr e) = allowed from to false (λ q. absurd (cc)) e

-- The retry flag narrows the guard: a change to another status is accepted exactly when it is an
-- edge that leaves FAILED or TIMEOUT.
pub can_transition_retry_iff :
    (from to : OperationStatus)
    → from ≢ to
    → (can_transition from to true ≡ none) ↔ (IsRetryable from × (from ⟶ to))
can_transition_retry_iff from to ne = (sound, λ p. allowed from to true (λ _. p.0) p.1)
  where
    sound : can_transition from to true ≡ none → IsRetryable from × (from ⟶ to)
    sound h = elim (Bool-cases (same_status from to)) [
      | inl e ↦ absurd (ne (same_status→≡ from to e))
      | inr d ↦ (
        accepted-IsRetryable from to d h,
        edge_sound from to d (accepted_by_table from to true d h),
      )
    ]
