-- ===== src/Domain/Transition/Paths.antt =====
-- internal/domain/operation/transition.go: the lives that the guard allows an operation.
use update_service.Base.{◌≡◌, refl, ◌⊎◌, inl, inr, ◌∙◌, subst, String, ◌≢◌, false, none}
use update_service.Domain.Operation.{
  OperationStatus, created, queued, dispatched, transferring, transferred, processing, completed,
  cancelled, other,
}
use update_service.Domain.Transition.{can_transition}
use update_service.Domain.Transition.Diagram.{
  ◌⟶◌, upload, dispatch, start, verify, process, finish, retry_failed, retry_timeout, forward,
  can_transition_iff, edge-open, same_status_refl,
}

-- A run of changes of status, each of them accepted by the guard.
pub data Run : OperationStatus → OperationStatus → Type 0 where
  stay : {a : OperationStatus} → Run a a
  move : {a b c : OperationStatus} → can_transition a b false ≡ none → Run b c → Run a c

-- Some status of the run, its last one apart, is `s`.
abbrev pub Visits : OperationStatus → {a b : OperationStatus} → Run a b → Type 0
Visits s stay = ⊥
Visits s (move {a = a} h r) = (a ≡ s) ⊎ Visits s r

after_accepted : (a b : OperationStatus) → can_transition a b false ≡ none → (a ≡ b) ⊎ (a ⟶ b)
after_accepted a b h = (can_transition_iff a b).0 h

-- The only edges into the stages of the work come from the stage before.
into_completed : (a b : OperationStatus) → a ⟶ b → b ≡ completed → a ≡ processing
into_completed _ _ finish e = refl
into_completed _ _ upload e = cc
into_completed _ _ _ e = cc

into_processing : (a b : OperationStatus) → a ⟶ b → b ≡ processing → a ≡ transferred
into_processing _ _ process e = refl
into_processing _ _ upload e = cc
into_processing _ _ _ e = cc

into_transferred : (a b : OperationStatus) → a ⟶ b → b ≡ transferred → a ≡ transferring
into_transferred _ _ verify e = refl
into_transferred _ _ upload e = cc
into_transferred _ _ _ e = cc

into_transferring : (a b : OperationStatus) → a ⟶ b → b ≡ transferring → a ≡ dispatched
into_transferring _ _ start e = refl
into_transferring _ _ upload e = cc
into_transferring _ _ _ e = cc

into_dispatched : (a b : OperationStatus) → a ⟶ b → b ≡ dispatched → a ≡ queued
into_dispatched _ _ dispatch e = refl
into_dispatched _ _ upload e = cc
into_dispatched _ _ _ e = cc

completed_or : (a : OperationStatus) → (a ≡ completed) ⊎ (a ≢ completed)
completed_or completed = inl refl
completed_or _ = inr (λ e. cc)

processing_or : (a : OperationStatus) → (a ≡ processing) ⊎ (a ≢ processing)
processing_or processing = inl refl
processing_or _ = inr (λ e. cc)

transferred_or : (a : OperationStatus) → (a ≡ transferred) ⊎ (a ≢ transferred)
transferred_or transferred = inl refl
transferred_or _ = inr (λ e. cc)

transferring_or : (a : OperationStatus) → (a ≡ transferring) ⊎ (a ≢ transferring)
transferring_or transferring = inl refl
transferring_or _ = inr (λ e. cc)

dispatched_or : (a : OperationStatus) → (a ≡ dispatched) ⊎ (a ≢ dispatched)
dispatched_or dispatched = inl refl
dispatched_or _ = inr (λ e. cc)

module _ (pre post : OperationStatus) (only : (a b : OperationStatus) → a ⟶ b → b ≡ post → a ≡ pre)
    (test : (a : OperationStatus) → (a ≡ post) ⊎ (a ≢ post)) where
  -- One step of a run towards `post`, where `rest` is what the remaining run gives.
  step_before :
      {a m b : OperationStatus} (r : Run m b)
      → a ≢ post
      → (a ≡ m) ⊎ (a ⟶ m)
      → (m ≡ post) ⊎ (m ≢ post)
      → (m ≢ post → Visits pre r)
      → (a ≡ pre) ⊎ Visits pre r
  step_before r n (inr edge) (inl q) rest = inl (only _ _ edge q)
  step_before r n (inl same) (inl q) rest = absurd (n (same ∙ q))
  step_before r n _ (inr q) rest = inr (rest q)

  -- A run that ends in a status with one way in passes through the status before it.
  ends_after : {a b : OperationStatus} (r : Run a b) → b ≡ post → a ≢ post → Visits pre r
  ends_after stay e n = absurd (n e)
  ends_after (move {a = a} {b = m} h r) e n =
      step_before r n (after_accepted a m h) (test m) (ends_after r e)

  -- So does a run that only passes through it.
  Visits-after : {a b : OperationStatus} (r : Run a b) → Visits post r → a ≢ post → Visits pre r
  Visits-after stay v n = absurd v
  Visits-after (move h r) (inl e) n = absurd (n e)
  Visits-after (move {a = a} {b = m} h r) (inr v) n =
      step_before r n (after_accepted a m h) (test m) (Visits-after r v)

-- An operation that the guard lets go from CREATED to COMPLETED has been QUEUED, DISPATCHED,
-- TRANSFERRING, TRANSFERRED and PROCESSING on the way.
pub Run-Visits_all :
    (r : Run created completed)
    → Visits queued r
      × Visits dispatched r
      × Visits transferring r
      × Visits transferred r
      × Visits processing r
Run-Visits_all r = (v1, v2, v3, v4, v5)
  where
    v5 : Visits processing r
    v5 = ends_after processing completed into_completed completed_or r refl (λ e. cc)

    v4 : Visits transferred r
    v4 = Visits-after transferred processing into_processing processing_or r v5 (λ e. cc)

    v3 : Visits transferring r
    v3 = Visits-after transferring transferred into_transferred transferred_or r v4 (λ e. cc)

    v2 : Visits dispatched r
    v2 = Visits-after dispatched transferring into_transferring transferring_or r v3 (λ e. cc)

    v1 : Visits queued r
    v1 = Visits-after queued dispatched into_dispatched dispatched_or r v2 (λ e. cc)

terminal_step :
    (a b : OperationStatus) → (a ≡ completed) ⊎ (a ≡ cancelled) → (a ≡ b) ⊎ (a ⟶ b) → a ≡ b
terminal_step a b t (inl e) = e
terminal_step a b (inl t) (inr edge) = absurd (cc ((edge-open edge).1, same_status_refl a, t))
terminal_step a b (inr t) (inr edge) = absurd (cc ((edge-open edge).2, same_status_refl a, t))

-- COMPLETED and CANCELLED are terminal: no run of accepted changes leaves them.
pub Run-terminal : {a b : OperationStatus} → Run a b → (a ≡ completed) ⊎ (a ≡ cancelled) → a ≡ b
Run-terminal stay t = refl
Run-terminal (move {a = a} {b = m} h r) t =
    let e : a ≡ m = terminal_step a m t (after_accepted a m h) in
    e ∙ Run-terminal r (subst (λ s. (s ≡ completed) ⊎ (s ≡ cancelled)) e t)

follow : {a b c : OperationStatus} → a ⟶ b → Run b c → Run a c
follow {a} {b} e r = move ((can_transition_iff a b).1 (inr e)) r

-- From each of the ten statuses but the two terminal ones the guard has a way to COMPLETED, and
-- one to CANCELLED in a single change.
pub Run-completed :
    (a : OperationStatus)
    → a ≢ completed
    → a ≢ cancelled
    → ((s : String) → a ≢ other s)
    → Run a completed × (can_transition a cancelled false ≡ none)
unfolding can_transition
Run-completed (other s) n m o = absurd (o s refl)
Run-completed completed n m o = absurd (n refl)
Run-completed cancelled n m o = absurd (m refl)
Run-completed _ n m o = (search (follow, stay, forward, retry_failed, retry_timeout) depth 14, refl)
