-- ===== src/Elastic/Conserved.antt =====
-- indexer.go: no document that is handed over disappears.
use update_service.Base.{
  ℕ, ◌+◌, ◌≡◌, refl, inl, inr, Bool-cases, Bool, true, false, ◌&&◌, List, [], ◌∷◌, ◌++◌, ltb, ◌==◌,
  arith, length, count_where, if◌then◌else◌,
}
use update_service.Elastic.{
  CompletedDocument, Indexer, channel_cap, dlq_from_doc, index_doc, receive, received, settled,
  finished, finish, close, quit, Step, index_step, receive_step, close_step, quit_step, finish_step,
  step, run, handed,
}

count-append :
    {A : Type 0} (p : A → Bool) (xs ys : List A)
    → count_where p (xs ++ ys) ≡ count_where p xs + count_where p ys
count-append p [] ys = omega arith
count-append p (x ∷ xs) ys = ground (arith, count-append p xs ys)

-- The documents of one kind that are somewhere.
unfoldable pub present : (CompletedDocument → Bool) → Indexer → ℕ
present p i =
    count_where p i.channel
    + count_where p i.taken
    + count_where p i.indexed
    + count_where p i.dead_letters
    + count_where p i.lost

abbrev pub one : (CompletedDocument → Bool) → CompletedDocument → ℕ
one p doc = if p doc then 1 else 0

module _ (p : CompletedDocument → Bool) where
  dlq-present :
      (is_writable : Bool) (doc : CompletedDocument) (i : Indexer)
      → present p (dlq_from_doc is_writable doc i) ≡ one p doc + present p i
  unfolding present dlq_from_doc
  dlq-present true doc i = ground arith
  dlq-present false doc i = ground arith

  index-present :
      (is_writable : Bool) (doc : CompletedDocument) (i : Indexer)
      → present p (index_doc is_writable doc i) ≡ one p doc + present p i
  unfolding present index_doc
  index-present is_writable doc i = elim (Bool-cases (ltb (length i.channel) channel_cap)) [
    | inl room ↦ rw room (ground (arith, count-append p i.channel (doc ∷ [])))
    | inr full ↦ rw full (dlq-present is_writable doc i)
  ]

  receive-present : (i : Indexer) → present p (receive i) ≡ present p i
  unfolding present receive
  receive-present i = elim (Bool-cases (ltb (length i.taken) i.running)) [
    | inl free ↦ rw free (go i.channel refl)
    | inr busy ↦ rw busy refl
  ]
    where
      go :
          (docs : List CompletedDocument)
          → i.channel ≡ docs
          → present p (received docs i) ≡ present p i
      go [] e = refl
      go (doc ∷ rest) e = rw e (ground arith)

  settled-present :
      (accepted is_writable : Bool) (kept docs : List CompletedDocument) (i : Indexer)
      → i.taken ≡ kept ++ docs
      → present p (settled accepted is_writable kept docs i) ≡ present p i
  unfolding present dlq_from_doc
  settled-present accepted is_writable kept [] i e = refl
  settled-present true is_writable kept (doc ∷ rest) i e =
      rw e (ground (arith, count-append p kept rest, count-append p kept (doc ∷ rest)))
  settled-present false true kept (doc ∷ rest) i e =
      rw e (ground (arith, count-append p kept rest, count-append p kept (doc ∷ rest)))
  settled-present false false kept (doc ∷ rest) i e =
      rw e (ground (arith, count-append p kept rest, count-append p kept (doc ∷ rest)))

  finished-present :
      (first accepted is_writable : Bool) (docs : List CompletedDocument) (i : Indexer)
      → i.taken ≡ docs
      → present p (finished first accepted is_writable docs i) ≡ present p i
  finished-present true accepted is_writable docs i e =
      settled-present accepted is_writable [] docs i e
  finished-present false accepted is_writable [] i e = refl
  finished-present false accepted is_writable (doc ∷ rest) i e =
      settled-present accepted is_writable (doc ∷ []) rest i e

  finish-present :
      (first accepted is_writable : Bool) (i : Indexer)
      → present p (finish first accepted is_writable i) ≡ present p i
  unfolding finish
  finish-present first accepted is_writable i =
      finished-present first accepted is_writable i.taken i refl

  quit-present : (i : Indexer) → present p (quit i) ≡ present p i
  unfolding present quit
  quit-present i =
      elim (Bool-cases (i.closed && ((length i.channel == 0) && ltb (length i.taken) i.running))) [
        | inl y ↦ rw y refl
        | inr n ↦ rw n refl
      ]

  -- What a step hands over.
  abbrev step_count : Step → ℕ
  step_count (index_step is_writable doc) = one p doc
  step_count _ = 0

  step-present : (s : Step) (i : Indexer) → present p (step s i) ≡ step_count s + present p i
  unfolding step close present
  step-present (index_step is_writable doc) i = index-present is_writable doc i
  step-present receive_step i = omega (arith, receive-present i)
  step-present (finish_step first accepted is_writable) i =
      omega (arith, finish-present first accepted is_writable i)
  step-present close_step i = omega arith
  step-present quit_step i = omega (arith, quit-present i)

  handed-count :
      (s : Step) (ss : List Step)
      → count_where p (handed (s ∷ ss)) ≡ step_count s + count_where p (handed ss)
  unfolding handed
  handed-count (index_step is_writable doc) ss = ground arith
  handed-count receive_step ss = omega arith
  handed-count (finish_step first accepted is_writable) ss = omega arith
  handed-count close_step ss = omega arith
  handed-count quit_step ss = omega arith

  pub run-present :
      (ss : List Step) (i : Indexer)
      → present p (run ss i) ≡ count_where p (handed ss) + present p i
  unfolding run handed
  run-present [] i = omega arith
  run-present (s ∷ ss) i =
      omega (arith, run-present ss (step s i), step-present s i, handed-count s ss)
