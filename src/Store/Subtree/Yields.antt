-- ===== src/Store/Subtree/Yields.antt =====
-- What a walk that ends yields: every object below the root, each once, and nothing else.
use clayers.Prelude.{
  ℕ, zero, suc, ◌≡◌, refl, inl, inr, true, false, ◌||◌, Option, List, [], ◌∷◌, arith, push_all,
  contains, contains-push_all, distinct, nat_eq, ◌==◌, ==_iff, Bool-cases,
}
use clayers.Prelude.Dict.{keys}
use clayers.Error.{ContentHash, Result, ok, Result-cases}
use clayers.Object.{Object, links}
use clayers.Store.{fetch}
use clayers.Store.Subtree.{walk, yielding}
use clayers.Store.Subtree.Reach.{Reach, step}

module _ (get : ContentHash → Result (Option Object)) where
  abbrev pub Fetched : List (ContentHash × Object) → Type 0
  Fetched [] = Unit
  Fetched ((h, o) ∷ items) = (fetch get h ≡ ok o) × Fetched items

  -- What `walk` promises of its items, from a visited set and a stack.
  pub record Covers (visited stack : List ContentHash) (items : List (ContentHash × Object))
      : Type 0 where
    pub fetched : Fetched items
    pub fresh : (h : ContentHash) → contains (keys items) h ≡ true → contains visited h ≡ false
    pub once : distinct (keys items) ≡ true
    pub stacked :
        (h : ContentHash)
        → contains stack h ≡ true
        → (contains visited h || contains (keys items) h) ≡ true
    pub closed :
        (u v : ContentHash) (o : Object)
        → contains (keys items) u ≡ true
        → fetch get u ≡ ok o
        → contains (links o) v ≡ true
        → (contains visited v || contains (keys items) v) ≡ true

  -- One round of the loop at a hash that was visited, and at a new one.
  pub walk_seen :
      (fuel : ℕ) (visited : List ContentHash) (h : ContentHash) (stack : List ContentHash)
      → contains visited h ≡ true
      → walk get (suc fuel) visited (h ∷ stack) ≡ walk get fuel visited stack
  unfolding walk
  walk_seen fuel visited h stack seen = ground arith

  pub walk_new :
      (fuel : ℕ) (visited : List ContentHash) (h : ContentHash) (stack : List ContentHash)
      (o : Object)
      → contains visited h ≡ false
      → fetch get h ≡ ok o
      → walk get (suc fuel) visited (h ∷ stack)
        ≡ yielding h o (walk get fuel (h ∷ visited) (push_all stack (links o)))
  unfolding walk
  walk_new fuel visited h stack o new e = ground arith

  -- A walk that ends well at a new hash has fetched its object.
  walk-fetched :
      (fuel : ℕ) (visited : List ContentHash) (h : ContentHash) (stack : List ContentHash)
      → contains visited h ≡ false
      → (walk get (suc fuel) visited (h ∷ stack)).ending ≡ ok tt
      → (o : Object) × (fetch get h ≡ ok o)
  unfolding walk
  walk-fetched fuel visited h stack new done = elim (Result-cases (fetch get h)) [
    | inl found ↦ found
    | inr (inl (e, failed)) ↦ ground arith
    | inr (inr stopped) ↦ ground arith
  ]

  Covers-step :
      (visited stack : List ContentHash) (h : ContentHash) (o : Object)
      (items : List (ContentHash × Object))
      → contains visited h ≡ false
      → fetch get h ≡ ok o
      → Covers (h ∷ visited) (push_all stack (links o)) items
      → Covers visited (h ∷ stack) ((h, o) ∷ items)
  Covers-step visited stack h o items new e c = record {
    fetched = (e, c.fetched);
    fresh = λ k m. ground (arith, c.fresh k, ==_iff h k);
    once = ground (arith, c.fresh h, c.once, ==_iff h h);
    stacked = λ k m. ground (arith, c.stacked k, ==_iff h k, contains-push_all stack (links o) k);
    closed = λ u v o' m e' l. ground (
      arith,
      e',
      e,
      c.closed u v o',
      c.stacked v,
      ==_iff h u,
      ==_iff h v,
      contains-push_all stack (links o) v,
    );
  }

  pub walk-Covers :
      (fuel : ℕ) (visited stack : List ContentHash)
      → (walk get fuel visited stack).ending ≡ ok tt
      → Covers visited stack (walk get fuel visited stack).items
  unfolding walk
  walk-Covers zero visited stack done = cc
  walk-Covers (suc fuel) visited [] done = record {
    fetched = tt;
    fresh = λ h m. cc;
    once = refl;
    stacked = λ h m. cc;
    closed = λ u v o m. cc;
  }
  walk-Covers (suc fuel) visited (h ∷ stack) done = elim (Bool-cases (contains visited h)) [
    | inl seen ↦
        let step = walk_seen fuel visited h stack seen in
        let c = walk-Covers fuel visited stack (rw step at done) in
        rw step (record {
          fetched = c.fetched;
          fresh = c.fresh;
          once = c.once;
          stacked = λ k m. ground (arith, c.stacked k, ==_iff h k, seen);
          closed = c.closed;
        })
    | inr new ↦
        let (o, e) = walk-fetched fuel visited h stack new done in
        let step = walk_new fuel visited h stack o new e in
        rw step (
          Covers-step visited stack h o _ new e
            (walk-Covers fuel (h ∷ visited) (push_all stack (links o)) (rw step at done)))
  ]

  pub walk-Reach :
      (root : ContentHash) (fuel : ℕ) (visited stack : List ContentHash)
      → ((h : ContentHash) → contains stack h ≡ true → Reach links get root h)
      → (h : ContentHash) → contains (keys (walk get fuel visited stack).items) h ≡ true
      → Reach links get root h
  unfolding walk
  walk-Reach root zero visited stack below h m = cc
  walk-Reach root (suc fuel) visited [] below h m = cc
  walk-Reach root (suc fuel) visited (k ∷ stack) below h m =
      elim (Bool-cases (contains visited k)) [
        | inl seen ↦
            walk-Reach root fuel visited stack (λ j n. below j (ground arith)) h
              (rw (walk_seen fuel visited k stack seen) at m)
        | inr new ↦ elim (Result-cases (fetch get k)) [
          | inl (o, e) ↦
              let at_k = below k (ground (arith, ==_iff k k)) in
              let rest =
                walk-Reach root fuel (k ∷ visited) (push_all stack (links o))
                  (λ j n. elim (Bool-cases (contains stack j)) [
                    | inl old ↦ below j (ground arith)
                    | inr fresh ↦
                        step o at_k e (ground (arith, contains-push_all stack (links o) j))
                  ])
                  h in
              elim (Bool-cases (k == h)) [
                | inl same ↦ rw (← (==_iff k h).0 same) at_k
                | inr other ↦ rest (ground (arith, walk_new fuel visited k stack o new e))
              ]
          | inr (inl (e, failed)) ↦ ground arith
          | inr (inr stopped) ↦ ground arith
        ]
      ]
