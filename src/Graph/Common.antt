-- ===== src/Graph/Common.antt =====
-- `common_ancestor`: what it finds is an ancestor of both commits.
use clayers.Prelude.{
  ℕ, zero, suc, ◌≡◌, inl, inr, true, Option, some, List, [], ◌∷◌, arith, contains, nat_eq, ◌==◌,
  ==_iff, Bool-cases,
}
use clayers.Error.{ContentHash, Result, ok}
use clayers.Object.{Object}
use clayers.Store.{fetch}
use clayers.Store.Subtree.Reach.{here, step}
use clayers.Graph.{found, more, parents_of, rounds, common_ancestor}
use clayers.Graph.Queue.{Within, Grows, scan-Grows}
use clayers.Graph.Rounds.{
  Ancestor, Expanded, met, met_parent, idle, pushed, exhausted, found_a, found_b, on, rounds-Round,
}

module _ (get : ContentHash → Result (Option Object)) where
  -- One side's visited hashes are ancestors of its tip, and its queue holds visited hashes.
  pub record IsBelow (tip : ContentHash) (visited queue : List ContentHash) : Type 0 where
    pub reached : (h : ContentHash) → contains visited h ≡ true → Ancestor get tip h
    pub queued : Within queue visited

  pub IsBelow-start : (tip : ContentHash) → IsBelow tip (tip ∷ []) (tip ∷ [])
  IsBelow-start tip = record {
    reached = λ h m. rw (← (==_iff tip h).0 (ground arith)) here;
    queued = λ h m. m;
  }

  IsBelow-found :
      (tip c : ContentHash) (mine queue others : List ContentHash)
      → IsBelow tip mine queue
      → Expanded get mine queue others (found c)
      → Ancestor get tip c × (contains others c ≡ true)
  IsBelow-found tip c mine queue others b (met d rest e m s) =
      (b.reached c (b.queued c (ground (arith, ==_iff d d, e, s))), ground (arith, s))
  IsBelow-found tip c mine queue others b (met_parent u d rest o e f p m s) = (
    step o (b.reached u (b.queued u (ground (arith, ==_iff u u, e)))) f (ground (arith, s)),
    ground (arith, s),
  )
  IsBelow-found tip c mine queue others b (idle e s) = cc
  IsBelow-found tip c mine queue others b (pushed u rest o after queue' e n f p s) = cc

  IsBelow-pushed :
      (tip u : ContentHash) (mine rest others after queue' : List ContentHash) (o : Object)
      → IsBelow tip mine (u ∷ rest)
      → fetch get u ≡ ok o
      → Grows (parents_of o) mine rest after queue'
      → IsBelow tip after queue'
  IsBelow-pushed tip u mine rest others after queue' o b f g = record {
    reached = λ h m. elim (Bool-cases (contains mine h)) [
      | inl old ↦ b.reached h old
      | inr new ↦
          step o (b.reached u (b.queued u (ground (arith, ==_iff u u)))) f
            (ground (arith, g.visited h))
    ];
    queued = λ h m. ground (arith, g.visited h, g.waiting h, b.queued h);
  }

  IsBelow-more :
      (tip : ContentHash) (mine queue others after queue' : List ContentHash)
      → IsBelow tip mine queue
      → Expanded get mine queue others (more after queue')
      → IsBelow tip after queue'
  IsBelow-more tip mine queue others after queue' b (met d rest e m s) = cc
  IsBelow-more tip mine queue others after queue' b (met_parent u d rest o e f p m s) = cc
  IsBelow-more tip mine queue others after queue' b (idle e s) =
      let same : after ≡ mine = ground (arith, s) in
      let none_left : queue' ≡ [] = ground (arith, s) in
      rw (same, none_left) (record { reached = b.reached; queued = λ h m. cc })
  IsBelow-more tip mine queue others after queue' b (pushed u rest o after' queue'' e n f p s) =
      let same : after ≡ after' = ground (arith, s) in
      let waiting : queue' ≡ queue'' = ground (arith, s) in
      rw (same, waiting)
        (IsBelow-pushed tip u mine rest others after' queue'' o (rw e at b) f
          (scan-Grows (parents_of o) mine rest others after' queue'' p))

  rounds_sound :
      (fuel : ℕ) (a b c : ContentHash) (va qa vb qb : List ContentHash)
      → IsBelow a va qa
      → IsBelow b vb qb
      → rounds get fuel va qa vb qb ≡ ok (some c)
      → Ancestor get a c × Ancestor get b c
  unfolding rounds
  rounds_sound zero a b c va qa vb qb ia ib e = cc
  rounds_sound (suc fuel) a b c va qa vb qb ia ib e =
      elim (rounds-Round get fuel va qa vb qb (some c) e) [
        | exhausted x y z ↦ absurd (cc)
        | found_a d x z ↦
            let same : c ≡ d = ground (arith, z) in
            let (up, m) = IsBelow-found a d va qa vb ia x in rw same (up, ib.reached d m)
        | found_b va' qa' d x y z ↦
            let same : c ≡ d = ground (arith, z) in
            let ja = IsBelow-more a va qa vb va' qa' ia x in
            let (up, m) = IsBelow-found b d vb qb va' ib y in rw same (ja.reached d m, up)
        | on va' qa' vb' qb' x y k ↦
            rounds_sound fuel a b c va' qa' vb' qb' (IsBelow-more a va qa vb va' qa' ia x)
              (IsBelow-more b vb qb va' vb' qb' ib y) k
      ]

  -- If `common_ancestor` answers with a commit, it is an ancestor of both.
  pub common_ancestor_sound :
      (fuel : ℕ) (a b c : ContentHash)
      → common_ancestor get fuel a b ≡ ok (some c)
      → Ancestor get a c × Ancestor get b c
  unfolding common_ancestor
  common_ancestor_sound fuel a b c e = elim (Bool-cases (a == b)) [
    | inl same ↦
        let eq = (==_iff a b).0 same in
        let it : c ≡ a = ground arith in (rw it here, rw (it, eq) here)
    | inr differ ↦
        rounds_sound fuel a b c (a ∷ []) (a ∷ []) (b ∷ []) (b ∷ []) (IsBelow-start a)
          (IsBelow-start b) (rw differ at e)
  ]
