-- ===== src/Transfer/Count.antt =====
-- receiver.go: counting the received chunks tells whether all are there.
use update_service.Base.{
  subst, sym, ℕ, zero, suc, ◌+◌, ◌<◌, ◌≡◌, refl, inl, inr, Bool-cases, true, false, List, [], ◌∷◌,
  arith, if◌then◌else◌, ◌==◌, ==_iff, ltb, length,
}
use update_service.Domain.Job.{FileChunk}
use update_service.Transfer.Active.{has_chunk}

-- How many of the first `n` indices have not been received.
abbrev pub missing : ℕ → List FileChunk → ℕ
missing zero received = 0
missing (suc n) received =
    let rest = missing n received in if has_chunk n received then rest else suc rest

pub missing-none : (n : ℕ) → missing n [] ≡ n
missing-none zero = refl
missing-none (suc n) = omega (arith, missing-none n)

-- A new chunk is one that is missing no more, if its index is below the bound.
missing-add :
    (c : FileChunk) (n : ℕ) (received : List FileChunk)
    → has_chunk c.chunk_index received ≡ false
    → missing n (c ∷ received) + (if ltb c.chunk_index n then 1 else 0) ≡ missing n received
missing-add c zero received new = ground arith
missing-add c (suc n) received new = elim (Bool-cases (c.chunk_index == n)) [
  | inl hit ↦
      let same : c.chunk_index ≡ n = (==_iff c.chunk_index n).0 hit in
      let absent : has_chunk n received ≡ false =
        subst (λ k. has_chunk k received ≡ false) same new in
      rw (hit, absent) (ground (arith, same, missing-add c n received new))
  | inr miss ↦ rw miss (ground (arith, miss, missing-add c n received new))
]

pub missing-new :
    (c : FileChunk) (n : ℕ) (received : List FileChunk)
    → has_chunk c.chunk_index received ≡ false
    → c.chunk_index < n
    → missing n received + length received ≡ n
    → missing n (c ∷ received) + length (c ∷ received) ≡ n
missing-new c n received new below h = ground (arith, missing-add c n received new, below, h)

pub has_chunk-full :
    (n : ℕ) (received : List FileChunk)
    → missing n received ≡ 0
    → (k : ℕ) → k < n
    → has_chunk k received ≡ true
has_chunk-full zero received h k below = absurd (omega (arith, below))
has_chunk-full (suc n) received h k below = elim (Bool-cases (has_chunk n received)) [
  | inr absent ↦ absurd (omega (arith, (rw absent at h)))
  | inl there ↦ elim (Bool-cases (k == n)) [
    | inl last ↦ subst (λ j. has_chunk j received ≡ true) (sym ((==_iff k n).0 last)) there
    | inr before ↦ has_chunk-full n received (rw there at h) k (ground (arith, below, before))
  ]
]

pub missing-full :
    (n : ℕ) (received : List FileChunk)
    → ((k : ℕ) → k < n → has_chunk k received ≡ true)
    → missing n received ≡ 0
missing-full zero received all = refl
missing-full (suc n) received all =
    rw (all n (omega arith)) (missing-full n received (λ k below. all k (omega (arith, below))))
