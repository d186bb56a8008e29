-- ===== src/Worker/Alive.antt =====
-- role.go: a node that registers and beats can be given work.
use update_service.Base.{
  ◌≡◌, refl, ℕ, String, true, Option, none, some, List, [], ◌∷◌, str_eq, str_eq_refl, find_key,
  find_key-key, find_where, ◌++◌, find_key-update_where, update_where, if◌then◌else◌,
}
use update_service.Domain.Node.{
  Node, Role, entry, worker, hybrid, healthy, parse_role, role_string, is_entry, is_worker,
}
use update_service.Effect.{Env, World, ◌>>◌, call, now, attempt, ignore_error, IsReliable, Returns}
use update_service.Repositories.Nodes
use update_service.Repositories.Nodes.{upserted}
use update_service.Repositories.Nodes.Registry.{upserted_row, registered}
use update_service.Repositories.Heartbeats
use update_service.Repositories.Heartbeats.{same_beat}
use update_service.Scheduling.{has_worker_role}
use update_service.Worker.Beating.{registered_roles, new_node, register_node, new_heartbeat, tick}

-- A role that works registers a role that the scheduler takes.
roles-works :
    (role : String)
    → is_worker (parse_role role) ≡ true
    → has_worker_role (registered_roles role) ≡ true
unfolding registered_roles role_string is_entry is_worker has_worker_role
roles-works role h = go (parse_role role) h
  where
    go :
        (r : Role)
        → is_worker r ≡ true
        → has_worker_role (
            (role_string r ∷ (if is_entry r then "entry" ∷ [] else []))
            ++ (if is_worker r then "worker" ∷ [] else []))
          ≡ true
    go worker h = refl
    go hybrid h = refl
    go entry h = absurd (cc h)

-- An UPDATE of the row of an id.
updated_row :
    (f : Node → Node) (id : String) (rows : List Node) (n : Node)
    → ((x : Node) → (f x).id ≡ x.id)
    → find_key Node.id id rows ≡ some n
    → find_key Node.id id (update_where (λ (x : Node). str_eq x.id id) f rows) ≡ some (f n)
updated_row f id rows n same found =
    let key : n.id ≡ id = find_key-key Node.id id rows n found in
    let hit : str_eq n.id id ≡ true = rw key (str_eq_refl id) in
    rw (find_key-update_where Node.id (λ (x : Node). str_eq x.id id) f same id rows, found, hit)
      refl

-- The row of a node with its first heartbeat.
abbrev beaten_node : ℕ → ℕ → ℕ → ℕ → Node → Node
beaten_node beat deadline_at at₂ at₃ n = record n {
  status = healthy;
  heartbeat_sequence = 1;
  last_heartbeat_at = some beat;
  heartbeat_deadline_at = some deadline_at;
  updated_at = at₃;
}

module _ (node_id incarnation_id role : String) (timeout : ℕ) (e : Env)
    (reliable : IsReliable e) where
  -- A node as it is after its first heartbeat.
  abbrev pub IsAlive : ℕ → Node → Type 0
  IsAlive sequence n =
      (n.status ≡ healthy)
      × (n.heartbeat_sequence ≡ sequence)
      × (n.incarnation_id ≡ incarnation_id)
      × (has_worker_role n.roles ≡ true)

  registered-IsAlive :
      (prior : Option Node) (at beat deadline_at at₂ at₃ : ℕ)
      → is_worker (parse_role role) ≡ true
      → IsAlive 1 (
          beaten_node beat deadline_at at₂ at₃
            (registered (new_node node_id incarnation_id role timeout at) prior))
  unfolding new_node
  registered-IsAlive none at beat deadline_at at₂ at₃ works =
      (refl, refl, refl, roles-works role works)
  registered-IsAlive (some row) at beat deadline_at at₂ at₃ works =
      (refl, refl, refl, roles-works role works)

  beaten_row :
      (rows : List Node) (at beat deadline_at at₂ at₃ : ℕ)
      → is_worker (parse_role role) ≡ true
      → (n : Node) × ((find_key Node.id node_id (
              update_where
                (λ (x : Node). str_eq x.id node_id)
                (λ (x : Node). record x { status = healthy; updated_at = at₃ })
                (update_where
                  (λ (x : Node). str_eq x.id node_id)
                  (λ (x : Node). record x {
                    heartbeat_sequence = 1;
                    last_heartbeat_at = some beat;
                    heartbeat_deadline_at = some deadline_at;
                    updated_at = at₂;
                  })
                  (upserted (new_node node_id incarnation_id role timeout at) rows)))
            ≡ some n)
          × IsAlive 1 n)
  unfolding new_node
  beaten_row rows at beat deadline_at at₂ at₃ works =
      let prior : Option Node = find_key Node.id node_id rows in
      let n : Node = registered (new_node node_id incarnation_id role timeout at) prior in
      (
        beaten_node beat deadline_at at₂ at₃ n,
        (
          updated_row (λ (x : Node). record x { status = healthy; updated_at = at₃ }) node_id _ _
              (λ x. refl)
              (updated_row
                (λ (x : Node). record x {
                  heartbeat_sequence = 1;
                  last_heartbeat_at = some beat;
                  heartbeat_deadline_at = some deadline_at;
                  updated_at = at₂;
                })
                node_id (upserted (new_node node_id incarnation_id role timeout at) rows) n
                (λ x. refl) (upserted_row (new_node node_id incarnation_id role timeout at) rows)),
          registered-IsAlive prior at beat deadline_at at₂ at₃ works,
        ),
      )

  -- While the outside works, a node whose role works and whose first heartbeat is not stored yet is
  -- HEALTHY with that heartbeat after it has registered and beaten once, whatever row it had before.
  pub tick-IsAlive :
      (w : World)
      → is_worker (parse_role role) ≡ true
      → find_where
          (same_beat (new_heartbeat node_id incarnation_id role timeout 1 0))
          w.db.heartbeats
        ≡ none
      → Returns
          ((do
            register_node node_id incarnation_id role timeout
            tick node_id incarnation_id role timeout 1
            Nodes.get_by_id node_id)
            e w)
          (λ o _. (n : Node) × ((o ≡ some n) × IsAlive 1 n))
  unfolding register_node tick now attempt ignore_error Nodes.upsert Nodes.get_by_id
      Nodes.update_heartbeat Nodes.update_status Heartbeats.insert call new_heartbeat
  tick-IsAlive w works fresh =
      simp (reliable, fresh) (beaten_row w.db.nodes (e.clock w.calls) _ _ _ _ works)
