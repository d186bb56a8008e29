-- ===== src/Worker/Ending.antt =====
-- role.go: when the wait of checkTransferAndProceed ends.
use update_service.Base.{
  ◌≡◌, refl, inl, inr, Bool-cases, String, Bool, true, false, ◌||◌, Option, none, some, List, [],
  ◌∷◌, ◌++◌, str_eq, contains,
}
use update_service.Domain.Json.{Json}
use update_service.Domain.Event.{event_type_string, transfer_verified, operation_transferred}
use update_service.Effect.{Error, Env, World, Outcome, ok, after}
use update_service.Effect.Post.{Post, Post-after, Post-mono}
use update_service.Coordinator.{DecodedEvent, unmarshal_event, handle_event, mark, verified}
use update_service.Coordinator.Returning.{mark-returns, handle_event-returns}
use update_service.Worker.{
  Transfers, has_active, without, handle_node_event, handle_worker_transfer_verified, take_event,
  take_events, check_transfer_and_proceed, handle_decoded,
}

without-has_active :
    (operation_id : String) (ids : Transfers)
    → has_active operation_id (without operation_id ids) ≡ false
unfolding has_active without
without-has_active operation_id [] = refl
without-has_active operation_id (id ∷ ids) = elim (Bool-cases (contains id operation_id)) [
  | inl y ↦ rw y (without-has_active operation_id ids)
  | inr n ↦ rw (n, n) (without-has_active operation_id ids)
]

or_left : (a b c : Bool) → (a || b) ≡ false → c ≡ false → (a || c) ≡ false
or_left false b c h k = k
or_left true b c h k = h

or_right : (a b : Bool) → (a || b) ≡ false → b ≡ false
or_right false b h = h
or_right true b h = absurd (cc (h))

without-keeps :
    (operation_id other : String) (ids : Transfers)
    → has_active operation_id ids ≡ false
    → has_active operation_id (without other ids) ≡ false
unfolding has_active without
without-keeps operation_id other [] h = refl
without-keeps operation_id other (id ∷ ids) h =
    let kept : has_active operation_id (without other ids) ≡ false =
      without-keeps operation_id other ids
        (or_right (contains id operation_id) (has_active operation_id ids) h) in
    elim (Bool-cases (contains id other)) [
      | inl y ↦ rw y kept
      | inr k ↦ rw k (
          or_left (contains id operation_id) (has_active operation_id ids)
            (has_active operation_id (without other ids)) h kept)
    ]

-- The wait is over.
abbrev pub IsOver : String → Option Transfers → Type 0
IsOver operation_id none = ⊥
IsOver operation_id (some active) = has_active operation_id active ≡ false

module _ (node_id role : String) (has_indexer : Bool) (staging_dir operation_id : String)
    (e : Env) where
  abbrev Idle : Transfers → World → Type 0
  Idle active _ = has_active operation_id active ≡ false

  abbrev Never : Error → World → Type 0
  Never _ _ = ⊥

  abbrev on_verified : DecodedEvent → Transfers → World → Outcome Transfers
  on_verified evt active w =
      handle_worker_transfer_verified node_id role has_indexer staging_dir evt.operation_id
        evt.payload active e w

  abbrev on_node : DecodedEvent → Transfers → World → Outcome Transfers
  on_node evt active w = handle_node_event node_id role has_indexer staging_dir evt active e w

  abbrev wait : List (List Json) → Transfers → World → Outcome (Option Transfers)
  wait rounds active w =
      check_transfer_and_proceed node_id role has_indexer staging_dir operation_id rounds active e w

  on_verified-Idle :
      (evt : DecodedEvent) (active : Transfers) (w : World)
      → has_active operation_id (without evt.operation_id active) ≡ false
      → Post (on_verified evt active w) Idle Never
  unfolding handle_worker_transfer_verified
  on_verified-Idle evt active w h =
      Post-after Idle Never
        (mark node_id verified operation_transferred false evt.operation_id evt.payload e w) _
        (mark-returns node_id verified operation_transferred false evt.operation_id evt.payload e w)
        (λ x w' b. b) λ _ w' _. h

  -- The coordinator's handlers leave the table as it is.
  passed :
      (evt : DecodedEvent) (active : Transfers) (w : World) (P : Transfers → World → Type 0)
      → ((w' : World) → P active w')
      → Post
          (after
            (handle_event node_id has_indexer evt.event_type evt.operation_id evt.payload e w)
            (λ _ w'. ok active w'))
          P
          Never
  passed evt active w P h =
      Post-after P Never
        (handle_event node_id has_indexer evt.event_type evt.operation_id evt.payload e w) _
        (handle_event-returns e w node_id has_indexer evt.event_type evt.operation_id evt.payload)
        (λ x w' b. b) λ _ w' _. h w'

  on_node-Idle :
      (evt : DecodedEvent) (active : Transfers) (w : World)
      → has_active operation_id active ≡ false
      → Post (on_node evt active w) Idle Never
  unfolding handle_node_event
  on_node-Idle evt active w h =
      elim (Bool-cases (str_eq evt.event_type (event_type_string transfer_verified))) [
        | inl y ↦ elim (Bool-cases (str_eq role "worker")) [
          | inl k ↦
              rw (y, k)
                (on_verified-Idle evt active w
                  (without-keeps operation_id evt.operation_id active h))
          | inr n ↦ rw (y, n) (passed evt active w Idle λ _. h)
        ]
        | inr n ↦ rw n (passed evt active w Idle λ _. h)
      ]

  -- The role of the node is not "worker": no event changes the table.
  on_node-same :
      str_eq role "worker" ≡ false
      → (evt : DecodedEvent) (active : Transfers) (w : World)
      → Post (on_node evt active w) (λ active' _. active' ≡ active) Never
  unfolding handle_node_event
  on_node-same other evt active w =
      elim (Bool-cases (str_eq evt.event_type (event_type_string transfer_verified))) [
        | inl y ↦ rw (y, other) (passed evt active w (λ active' _. active' ≡ active) λ _. refl)
        | inr n ↦ rw n (passed evt active w (λ active' _. active' ≡ active) λ _. refl)
      ]

  on_node-returns :
      (evt : DecodedEvent) (active : Transfers) (w : World)
      → Post (on_node evt active w) (λ _ _. Unit) Never
  unfolding handle_node_event handle_worker_transfer_verified
  on_node-returns evt active w =
      elim (Bool-cases (str_eq evt.event_type (event_type_string transfer_verified))) [
        | inl y ↦ elim (Bool-cases (str_eq role "worker")) [
          | inl k ↦
              rw (y, k)
                (Post-after (λ _ _. Unit) Never
                  (mark node_id verified operation_transferred false evt.operation_id evt.payload e
                    w)
                  _
                  (mark-returns node_id verified operation_transferred false evt.operation_id
                    evt.payload e w)
                  (λ x w' b. b) λ _ w' _. tt)
          | inr n ↦ rw (y, n) (passed evt active w (λ _ _. Unit) λ _. tt)
        ]
        | inr n ↦ rw n (passed evt active w (λ _ _. Unit) λ _. tt)
      ]

  -- What every event keeps, the consumer keeps.
  module _ (Inv : Transfers → Type 0)
      (keeps : (evt : DecodedEvent) (active : Transfers) (w : World)
        → Inv active
        → Post (on_node evt active w) (λ active' _. Inv active') Never) where
    take_event-keeps :
        (content : Json) (active : Transfers) (w : World)
        → Inv active
        → Post
            (take_event node_id role has_indexer staging_dir content active e w)
            (λ active' _. Inv active')
            Never
    unfolding take_event
    take_event-keeps content active w h = go (unmarshal_event content)
      where
        go :
            (o : Option DecodedEvent)
            → Post
                (handle_decoded node_id role has_indexer staging_dir o active e w)
                (λ active' _. Inv active')
                Never
        go none = h
        go (some evt) = keeps evt active w h

    take_events-keeps :
        (messages : List Json) (active : Transfers) (w : World)
        → Inv active
        → Post
            (take_events node_id role has_indexer staging_dir messages active e w)
            (λ active' _. Inv active')
            Never
    unfolding take_events
    take_events-keeps [] active w h = h
    take_events-keeps (content ∷ rest) active w h =
        Post-after (λ active' _. Inv active') Never
          (take_event node_id role has_indexer staging_dir content active e w) _
          (take_event-keeps content active w h) (λ x w' b. b)
          λ active' w' h'. take_events-keeps rest active' w' h'

  -- A node whose role is not "worker" and that has an active transfer for the operation waits for as
  -- long as it is asked, whatever messages come: the handler of its command never returns.
  pub check-not_worker :
      (rounds : List (List Json)) (active : Transfers) (w : World)
      → str_eq role "worker" ≡ false
      → has_active operation_id active ≡ true
      → Post (wait rounds active w) (λ r _. r ≡ none) Never
  unfolding check_transfer_and_proceed
  check-not_worker [] active w other waits = rw waits refl
  check-not_worker (messages ∷ rounds) active w other waits = rw waits (
      Post-after (λ r _. r ≡ none) Never
        (take_events node_id role has_indexer staging_dir messages active e w) _
        (take_events-keeps (λ active'. has_active operation_id active' ≡ true)
          (λ evt active' w' h.
            Post-mono (on_node evt active' w') (λ a w'' same. rw same h) (λ x w'' b. b)
              (on_node-same other evt active' w'))
          messages active w waits)
        (λ x w' b. b) λ active' w' h. check-not_worker rounds active' w' other h)

  module _ (worker : str_eq role "worker" ≡ true) (content : Json) (evt : DecodedEvent)
      (read : unmarshal_event content ≡ some evt)
      (type : str_eq evt.event_type "TransferVerified" ≡ true)
      (about : evt.operation_id ≡ operation_id) where
    ending : (active : Transfers) (w : World) → Post (on_node evt active w) Idle Never
    unfolding handle_node_event event_type_string
    ending active w =
        rw (type, worker)
          (on_verified-Idle evt active w (rw about (without-has_active operation_id active)))

    take_events-ends :
        (before after : List Json) (active : Transfers) (w : World)
        → Post
            (take_events node_id role has_indexer staging_dir
              (before ++ (content ∷ after))
              active
              e
              w)
            Idle
            Never
    unfolding take_events take_event
    take_events-ends [] after active w =
        Post-after Idle Never
          (handle_decoded node_id role has_indexer staging_dir (unmarshal_event content) active e w)
          _ (rw read (ending active w)) (λ x w' b. b)
          λ active' w' h.
            take_events-keeps (λ a. has_active operation_id a ≡ false) on_node-Idle after active' w'
              h
    take_events-ends (first ∷ before) after active w =
        Post-after Idle Never (take_event node_id role has_indexer staging_dir first active e w) _
          (take_event-keeps (λ _. Unit) (λ evt' a w' _. on_node-returns evt' a w') first active w
            tt)
          (λ x w' b. b) λ active' w' _. take_events-ends before after active' w'

    idle-IsOver :
        (rounds : List (List Json)) (active : Transfers) (w : World)
        → has_active operation_id active ≡ false
        → Post (wait rounds active w) (λ r _. IsOver operation_id r) Never
    unfolding check_transfer_and_proceed
    idle-IsOver [] active w h = rw h h
    idle-IsOver (messages ∷ rounds) active w h = rw h h

    -- On a worker, whatever the outside does, the wait for an operation is over at the latest when a
    -- message has come that is read as a TransferVerified event of the operation, and no transfer of
    -- the operation is active then.
    pub check-ends :
        (earlier later : List (List Json)) (before after : List Json) (active : Transfers)
        (w : World)
        → Post
            (wait (earlier ++ ((before ++ (content ∷ after)) ∷ later)) active w)
            (λ r _. IsOver operation_id r)
            Never
    unfolding check_transfer_and_proceed
    check-ends [] later before after active w = elim (Bool-cases (has_active operation_id active)) [
      | inl y ↦ rw y (
          Post-after (λ r _. IsOver operation_id r) Never
            (take_events node_id role has_indexer staging_dir (before ++ (content ∷ after)) active e
              w)
            _ (take_events-ends before after active w) (λ x w' b. b)
            λ active' w' h. idle-IsOver later active' w' h)
      | inr n ↦ rw n n
    ]
    check-ends (round ∷ earlier) later before after active w =
        elim (Bool-cases (has_active operation_id active)) [
          | inl y ↦ rw y (
              Post-after (λ r _. IsOver operation_id r) Never
                (take_events node_id role has_indexer staging_dir round active e w) _
                (take_events-keeps (λ _. Unit) (λ evt' a w' _. on_node-returns evt' a w') round
                  active w tt)
                (λ x w' b. b) λ active' w' _. check-ends earlier later before after active' w')
          | inr n ↦ rw n n
        ]
