-- ===== src/Scheduling/Choice.antt =====
-- scheduler.go: which of the nodes is chosen.
use mathlib.Core.List.{Memᴰ}
use update_service.Base.{
  ◌≤◌, ◌≡◌, ◌⊎◌, inl, inr, refl, Bool-cases, Bool, true, false, ◌&&◌, Option, none, some, List, [],
  ◌∷◌, if◌then◌else◌, All, find_where, select_where, find_where-IsLeast, find_where-none, first-All,
  IsLeast,
}
use update_service.Domain.Node.{Node}
use update_service.Effect.{external, no_healthy_worker, Env, World, counted}
use update_service.Effect.Post.{Post}
use update_service.Repositories.Nodes
use update_service.Repositories.Nodes.{is_healthy, healthy_nodes}
use update_service.Scheduling.{has_worker_role, chosen, select_worker}

-- The nodes that may get work.
abbrev pub is_worker : Node → Bool
is_worker n = is_healthy n.status && has_worker_role n.roles

-- Nothing, or what the row may get no work before.
abbrev pub NotBefore : Node → Node → Type 0
NotBefore n m = if is_worker m then n.updated_at ≤ m.updated_at else Unit {0}

-- The chosen node is one of the table's, may get work, and of those has waited longest since its
-- last update.
abbrev pub IsChoice : List Node → Node → Type 0
IsChoice nodes n = Memᴰ n nodes × (is_worker n ≡ true) × All (NotBefore n) nodes

selected-All :
    (P : Node → Type 0) (nodes : List Node)
    → All P nodes
    → All (λ m. P m × (is_healthy m.status ≡ true)) (select_where (λ m. is_healthy m.status) nodes)
selected-All P [] a = tt
selected-All P (x ∷ xs) a = elim (Bool-cases (is_healthy x.status)) [
  | inl h ↦ rw h ((a.0, h), selected-All P xs a.1)
  | inr h ↦ rw h (selected-All P xs a.1)
]

selected-least :
    (n : Node) (nodes : List Node)
    → IsLeast Node.updated_at
        (λ m. has_worker_role m.roles)
        n
        (select_where (λ m. is_healthy m.status) nodes)
    → All (NotBefore n) nodes
selected-least n [] a = tt
selected-least n (x ∷ xs) a = elim (Bool-cases (is_healthy x.status)) [
  | inl h ↦
      let b : (has_worker_role x.roles ≡ true → n.updated_at ≤ x.updated_at)
          × IsLeast Node.updated_at (λ m. has_worker_role m.roles) n
              (select_where (λ m. is_healthy m.status) xs) =
        rw h at a in
      (rw h (if_role b.0), selected-least n xs b.1)
  | inr h ↦ (rw h tt, selected-least n xs (rw h at a))
]
  where
    if_role :
        (has_worker_role x.roles ≡ true → n.updated_at ≤ x.updated_at)
        → (if has_worker_role x.roles then n.updated_at ≤ x.updated_at else Unit {0})
    if_role f = elim (Bool-cases (has_worker_role x.roles)) [ inl r ↦ rw r (f r) | inr r ↦ rw r tt ]

selected-none :
    (nodes : List Node)
    → All (λ m. has_worker_role m.roles ≡ false) (select_where (λ m. is_healthy m.status) nodes)
    → All (λ m. is_worker m ≡ false) nodes
selected-none [] a = tt
selected-none (x ∷ xs) a = elim (Bool-cases (is_healthy x.status)) [
  | inl h ↦
      let b : (has_worker_role x.roles ≡ false)
          × All (λ m. has_worker_role m.roles ≡ false)
              (select_where (λ m. is_healthy m.status) xs) =
        rw h at a in
      (rw (h, b.0) refl, selected-none xs b.1)
  | inr h ↦ (rw h refl, selected-none xs (rw h at a))
]

members : (xs : List Node) → All (λ m. Memᴰ m xs) xs
members [] = tt
members (x ∷ xs) = (Memᴰ.head refl, later xs (members xs))
  where
    later : (ys : List Node) → All (λ m. Memᴰ m xs) ys → All (λ m. Memᴰ m (x ∷ xs)) ys
    later [] a = tt
    later (y ∷ ys) a = (Memᴰ.tail a.0, later ys a.1)

-- A worker is selected only among the nodes of the table that are healthy or degraded and take work,
-- and it is one of the least recently updated of them; if there is none, that is the error. No table
-- changes.
pub select_worker-Post :
    (e : Env) (w : World)
    → Post
        (select_worker e w)
        (λ r w'. ((n : Node) × ((r.node_id ≡ n.id) × IsChoice w.db.nodes n)) × (w'.db ≡ w.db))
        (λ x w'.
          ((x ≡ external) ⊎ ((x ≡ no_healthy_worker) × All (λ m. is_worker m ≡ false) w.db.nodes))
          × (w'.db ≡ w.db))
unfolding select_worker Nodes.list_healthy
select_worker-Post e w = elim (Bool-cases (e.fails w.calls)) [
  | inl bad ↦ rw bad (inl refl, refl)
  | inr good ↦ rw good (found (find_where role (healthy_nodes w.db.nodes)) refl)
]
  where
    role : Node → Bool
    role n = has_worker_role n.roles

    found :
        (o : Option Node)
        → find_where role (healthy_nodes w.db.nodes) ≡ o
        → Post
            (chosen o e (counted w))
            (λ r w'. ((n : Node) × ((r.node_id ≡ n.id) × IsChoice w.db.nodes n)) × (w'.db ≡ w.db))
            (λ x w'.
              ((x ≡ external)
                ⊎ ((x ≡ no_healthy_worker) × All (λ m. is_worker m ≡ false) w.db.nodes))
              × (w'.db ≡ w.db))
    found none h = (
      inr (
        refl,
        selected-none w.db.nodes (
            find_where-none Node.updated_at role
              (select_where (λ m. is_healthy m.status) w.db.nodes) h),
      ),
      refl,
    )
    found (some n) h =
        let xs = select_where (λ (m : Node). is_healthy m.status) w.db.nodes in
        let k =
          first-All Node.updated_at role (λ m. Memᴰ m w.db.nodes × (is_healthy m.status ≡ true)) n
            xs (selected-All (λ m. Memᴰ m w.db.nodes) w.db.nodes (members w.db.nodes)) h in
        (
          (
            n,
            (
              refl,
              (
                k.0.0,
                rw (k.0.1, k.1) refl,
                selected-least n w.db.nodes (find_where-IsLeast Node.updated_at role n xs h),
              ),
            ),
          ),
          refl,
        )
