-- ===== src/Coordinator/Returning.antt =====
-- role.go: no handler of the coordinator fails or panics.
use update_service.Base.{
  inl, inr, Bool-cases, String, Bool, true, false, Option, none, some, str_eq, if◌then◌else◌, ℕ,
}
use update_service.Domain.Json.{Fields}
use update_service.Domain.Operation.{Operation}
use update_service.Domain.Event
use update_service.Domain.Event.{
  EventType, event_type_string, processing_succeeded, processing_failed, transfer_verified,
  operation_transferred, operation_completed, operation_failed, operation_cancelled,
}
use update_service.Effect.{Error, Env, World, M, ◌>>=◌, now, random_hex, counted}
use update_service.Effect.Post.{Post, Post-after, Post-ignore_error, Post-ignored}
use update_service.Repositories.Operations
use update_service.Repositories.Events
use update_service.Repositories.Posts
use update_service.Coordinator.{
  generate_event_id, handle_processing_succeeded, handle_processing_failed, handle_cancelled,
  handle_transfer_verified, index, succeeded, failed_with, called_off, verified, mark, mark_loaded,
  handle_event,
}

-- It returns.
abbrev pub Always : Unit {0} → World → Type 0
Always _ _ = Unit

abbrev Never : Error → World → Type 0
Never _ _ = ⊥

module _ (node_id : String) (change : Fields → Operation → ℕ → Operation) (type : EventType)
    (indexes : Bool) (operation_id : String) (payload : Fields) (e : Env) where
  mark_loaded-returns :
      (o : Option Operation) (w : World)
      → Post
          (mark_loaded node_id change type indexes operation_id payload o e w)
          Always
          (λ _ _. Unit)
  unfolding mark_loaded now generate_event_id random_hex index
  mark_loaded-returns none w = tt
  mark_loaded-returns (some op) w =
      Post-after Always (λ _ _. Unit) (Operations.update _ e (counted w)) _
        (Posts.operations-update e (counted w) _) (λ x w' h. tt)
        λ _ w₁ h₁.
          Post-ignored Always (λ _ _. Unit) (λ _. Unit) (Events.append _) e (counted w₁) _
            (Posts.events-append e (counted w₁) _) (λ _ w' h. tt) (λ x w' h. tt)
            λ _ w₂ h₂. elim (Bool-cases indexes) [ inl y ↦ rw y tt | inr n ↦ rw n tt ]

  pub mark-returns :
      (w : World) → Post (mark node_id change type indexes operation_id payload e w) Always Never
  unfolding mark
  mark-returns w =
      let loaded : Option Operation → M (Unit {0}) =
        mark_loaded node_id change type indexes operation_id payload in
      Post-ignore_error (λ _. Unit) Never (Operations.get_by_id operation_id >>= loaded) e w
        (Post-after Always (λ _ _. Unit) (Operations.get_by_id operation_id e w) (λ o. loaded o e)
          (Posts.operations-get_by_id e w operation_id) (λ x w' h. tt)
          λ o w₁ h. mark_loaded-returns o w₁)
        (λ _ w' h. tt) (λ x w' h. tt)

module _ (e : Env) (w : World) where
  returns-if :
      (b : Bool) (m n : M (Unit {0}))
      → Post (m e w) Always Never
      → Post (n e w) Always Never
      → Post ((if b then m else n) e w) Always Never
  returns-if true m n h k = h
  returns-if false m n h k = k

  pub handle_event-returns :
      (node_id : String) (has_indexer : Bool) (type operation_id : String) (payload : Fields)
      → Post (handle_event node_id has_indexer type operation_id payload e w) Always Never
  unfolding handle_event handle_processing_succeeded handle_processing_failed handle_cancelled
      handle_transfer_verified
  handle_event-returns node_id has_indexer type operation_id payload =
      returns-if (str_eq type (event_type_string processing_succeeded)) _ _
        (marks succeeded operation_completed has_indexer)
        (returns-if (str_eq type (event_type_string processing_failed)) _ _
          (marks failed_with operation_failed has_indexer)
          (returns-if (str_eq type (event_type_string Event.cancelled)) _ _
            (marks called_off operation_cancelled has_indexer)
            (returns-if (str_eq type (event_type_string transfer_verified)) _ _
              (marks verified operation_transferred false) tt)))
    where
      marks :
          (change : Fields → Operation → ℕ → Operation) (outcome : EventType) (indexes : Bool)
          → Post (mark node_id change outcome indexes operation_id payload e w) Always Never
      marks change outcome indexes =
          mark-returns node_id change outcome indexes operation_id payload e w
