-- ===== src/Tests/Domain.antt =====
-- internal/domain/operation at concrete statuses.
use update_service.Base.{true, false, ◌≡◌, refl, ◌⊎◌, inr, ◌↔◌, none, some}
use update_service.Domain.Operation.{
  created, queued, dispatched, transferring, transferred, processing, completed, failed, cancelled,
}
use update_service.Domain.Transition.{can_transition, invalid_transition}
use update_service.Domain.Transition.Diagram.{
  ◌⟶◌, IsRetryable, can_transition_iff, can_transition_retry_iff,
}
use update_service.Domain.Transition.Paths.{
  Run, stay, move, Visits, Run-Visits_all, Run-terminal, Run-completed,
}

queued_jump : can_transition queued completed false ≡ some invalid_transition
unfolding can_transition
queued_jump = refl

can_transition_iff_example :
    (can_transition queued dispatched false ≡ none)
    ↔ ((queued ≡ dispatched) ⊎ (queued ⟶ dispatched))
can_transition_iff_example = can_transition_iff queued dispatched

can_transition_retry_iff_example :
    (can_transition failed queued true ≡ none) ↔ (IsRetryable failed × (failed ⟶ queued))
can_transition_retry_iff_example = can_transition_retry_iff failed queued (λ e. cc)

full_run : Run created completed
unfolding can_transition
full_run = move {b = queued} refl (
    move {b = dispatched} refl (
      move {b = transferring} refl (
        move {b = transferred} refl (move {b = processing} refl (move {b = completed} refl stay)))))

Run-Visits_all_example :
    Visits queued full_run
    × Visits dispatched full_run
    × Visits transferring full_run
    × Visits transferred full_run
    × Visits processing full_run
Run-Visits_all_example = Run-Visits_all full_run

ended_run : Run cancelled cancelled
unfolding can_transition
ended_run = move {b = cancelled} refl stay

Run-terminal_example : cancelled ≡ cancelled
Run-terminal_example = Run-terminal ended_run (inr refl)

Run-completed_example : Run failed completed × (can_transition failed cancelled false ≡ none)
Run-completed_example = Run-completed failed (λ e. cc) (λ e. cc) (λ s e. cc)
