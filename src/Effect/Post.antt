-- ===== src/Effect/Post.antt =====
-- What holds after an action: one condition for a return, one for an error, and no panic.
use update_service.Base.{ℕ, ◌≡◌, refl, Bool-cases, inl, inr, Option, none, some}
use update_service.Effect.{
  Error, Env, World, Outcome, ok, err, panic, M, after, call, ignore_error, attempt, in_tx,
  committed, counted, Returns, external,
}
use update_service.Effect.Tables.{Db}

abbrev pub Post :
    {A : Type 0} → Outcome A → (A → World → Type 0) → (Error → World → Type 0) → Type 0
Post (ok a w) P Q = P a w
Post (err x w) P Q = Q x w
Post (panic w) P Q = ⊥

module _ {A B : Type 0} (P : B → World → Type 0) (Q : Error → World → Type 0) where
  -- The rule for a `do` block: an error of the first action ends it, and the rest starts from what
  -- holds after a return.
  pub Post-after :
      (o : Outcome A) (k : A → World → Outcome B) {R : A → World → Type 0}
      {S : Error → World → Type 0}
      → Post o R S
      → ((x : Error) (w : World) → S x w → Q x w)
      → ((a : A) (w : World) → R a w → Post (k a w) P Q)
      → Post (after o k) P Q
  Post-after (ok a w) k h g f = f a w h
  Post-after (err x w) k h g f = g x w h
  Post-after (panic w) k h g f = h

-- What follows from both ways out holds after an action whose error is dropped.
pub Post-ignore_error :
    (R : World → Type 0) (Q : Error → World → Type 0) (m : M (Unit {0})) (e : Env) (w : World)
    {P : Unit {0} → World → Type 0} {S : Error → World → Type 0}
    → Post (m e w) P S
    → ((a : Unit {0}) (w' : World) → P a w' → R w')
    → ((x : Error) (w' : World) → S x w' → R w')
    → Post (ignore_error m e w) (λ _ w'. R w') Q
unfolding ignore_error
Post-ignore_error R Q m e w {P} {S} h f g = go (m e w) h
  where
    go : (o : Outcome (Unit {0})) → Post o P S → Post (ignore_error (λ _ _. o) e w) (λ _ w'. R w') Q
    go (ok a w') h = f a w' h
    go (err x w') h = g x w' h
    go (panic w') h = h

-- The rule for a `do` block that starts with an action whose error is dropped: `R` is what follows
-- from both ways out.
pub Post-ignored :
    {B : Type 0} (P : B → World → Type 0) (Q : Error → World → Type 0) (R : World → Type 0)
    (m : M (Unit {0})) (e : Env) (w : World) (k : Unit {0} → World → Outcome B)
    {P' : Unit {0} → World → Type 0} {S : Error → World → Type 0}
    → Post (m e w) P' S
    → ((a : Unit {0}) (w' : World) → P' a w' → R w')
    → ((x : Error) (w' : World) → S x w' → R w')
    → ((a : Unit {0}) (w' : World) → R w' → Post (k a w') P Q)
    → Post (after (ignore_error m e w) k) P Q
Post-ignored P Q R m e w k h f g rest =
    Post-after P Q (ignore_error m e w) k (Post-ignore_error R (λ _ _. ⊥) m e w h f g)
      (λ x w' b. absurd b) rest

module _ {A : Type 0} (m : M A) (e : Env) (w : World) where
  pub Post-attempt :
      (R : Option A → World → Type 0) (Q : Error → World → Type 0) {P : A → World → Type 0}
      {S : Error → World → Type 0}
      → Post (m e w) P S
      → ((a : A) (w' : World) → P a w' → R (some a) w')
      → ((x : Error) (w' : World) → S x w' → R none w')
      → Post (attempt m e w) R Q
  unfolding attempt
  Post-attempt R Q {P} {S} h f g = go (m e w) h
    where
      go : (o : Outcome A) → Post o P S → Post (attempt (λ _ _. o) e w) R Q
      go (ok a w') h = f a w' h
      go (err x w') h = g x w' h
      go (panic w') h = h

  -- A transaction: what its body does to the tables, or nothing.
  pub Post-in_tx :
      (R : A → Db → Type 0)
      → Post (m e (counted w)) (λ a w'. R a w'.db) (λ _ _. Unit)
      → Post (in_tx m e w) (λ a w'. R a w'.db) (λ _ w'. w'.db ≡ w.db)
  unfolding in_tx call
  Post-in_tx R h = elim (Bool-cases (e.fails w.calls)) [
    | inl f ↦ rw f refl
    | inr f ↦ rw f (go (m e (counted w)) h)
  ]
    where
      go :
          (o : Outcome A)
          → Post o (λ a w'. R a w'.db) (λ _ _. Unit)
          → Post (committed e (counted w) o) (λ a w'. R a w'.db) (λ _ w'. w'.db ≡ w.db)
      go (ok a w') h = elim (Bool-cases (e.fails w'.calls)) [ inl f ↦ rw f refl | inr f ↦ rw f h ]
      go (err x w') h = refl
      go (panic w') h = h

pub Post-call :
    (e : Env) (w : World)
    → Post (call e w) (λ _ w'. w' ≡ counted w) (λ x w'. (x ≡ external) × (w' ≡ counted w))
unfolding call
Post-call e w = elim (Bool-cases (e.fails w.calls)) [
  | inl f ↦ rw f (refl, refl)
  | inr f ↦ rw f refl
]

module _ {A : Type 0} {P R : A → World → Type 0} {Q S : Error → World → Type 0} where
  pub Post-mono :
      (o : Outcome A)
      → ((a : A) (w : World) → P a w → R a w)
      → ((x : Error) (w : World) → Q x w → S x w)
      → Post o P Q
      → Post o R S
  Post-mono (ok a w) f g h = f a w h
  Post-mono (err x w) f g h = g x w h
  Post-mono (panic w) f g h = h

-- An action whose error is dropped never ends a `do` block.
pub Returns-ignored :
    {B : Type 0} (P : B → World → Type 0) (R : World → Type 0) (m : M (Unit {0})) (e : Env)
    (w : World) (k : Unit {0} → World → Outcome B) {P' : Unit {0} → World → Type 0}
    {S : Error → World → Type 0}
    → Post (m e w) P' S
    → ((a : Unit {0}) (w' : World) → P' a w' → R w')
    → ((x : Error) (w' : World) → S x w' → R w')
    → ((a : Unit {0}) (w' : World) → R w' → Returns (k a w') P)
    → Returns (after (ignore_error m e w) k) P
unfolding ignore_error
Returns-ignored {B} P R m e w k {P'} {S} h f g rest = go (m e w) h
  where
    go : (o : Outcome (Unit {0})) → Post o P' S → Returns (after (ignore_error (λ _ _. o) e w) k) P
    go (ok a w') h = rest tt w' (f a w' h)
    go (err x w') h = rest tt w' (g x w' h)
    go (panic w') h = absurd h

-- Two conditions of one action.
module _ {A : Type 0} (P R : A → World → Type 0) (Q S : Error → World → Type 0) where
  pub Post-both :
      (o : Outcome A)
      → Post o P Q
      → Post o R S
      → Post o (λ a w. P a w × R a w) (λ x w. Q x w × S x w)
  Post-both (ok a w) h k = (h, k)
  Post-both (err x w) h k = (h, k)
  Post-both (panic w) h k = h

-- An action that always returns: a condition for each number.
pub Post-all :
    {A : Type 0} (P : ℕ → A → World → Type 0) (o : Outcome A)
    → ((k : ℕ) → Post o (P k) (λ _ _. ⊥))
    → Post o (λ a w. (k : ℕ) → P k a w) (λ _ _. ⊥)
Post-all P (ok a w) h = h
Post-all P (err x w) h = h 0
Post-all P (panic w) h = h 0
