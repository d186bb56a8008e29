-- ===== src/Repositories/Nodes/Registry.antt =====
-- node_repository.go: what a node that registers is read back as.
use update_service.Base.{
  ◌≡◌, refl, inl, inr, Bool-cases, Option, none, some, List, [], ◌∷◌, arith, str_eq, str_eq_refl,
  eq_iff, find_key,
}
use update_service.Domain.Node.{Node}
use update_service.Effect.{Env, World, ◌>>◌, call, IsReliable, Returns}
use update_service.Repositories.Nodes.{merged_node, upserted, upsert, get_by_id}

-- A node that registers again keeps the time of its first registration.
abbrev pub registered : Node → Option Node → Node
registered n none = n
registered n (some row) = record n { registered_at = row.registered_at }

pub upserted_row :
    (n : Node) (rows : List Node)
    → find_key Node.id n.id (upserted n rows) ≡ some (registered n (find_key Node.id n.id rows))
unfolding upserted merged_node
upserted_row n [] = rw (str_eq_refl n.id) refl
upserted_row n (row ∷ rows) = elim (Bool-cases (str_eq row.id n.id)) [
  | inl e ↦ rw (e, e) (ground (arith, eq_iff row.id n.id))
  | inr e ↦ rw (e, e) (upserted_row n rows)
]

-- On a store that answers a node that has been upserted is read back as it is, but for the time of
-- registration, which is the one of the first registration.
pub get_by_id-upsert :
    (n : Node) (e : Env) (w : World)
    → IsReliable e
    → Returns
        ((upsert n >> get_by_id n.id) e w)
        (λ o _. o ≡ some (registered n (find_key Node.id n.id w.db.nodes)))
unfolding upsert get_by_id call
get_by_id-upsert n e w r = simp r (upserted_row n w.db.nodes)
