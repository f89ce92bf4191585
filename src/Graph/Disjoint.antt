-- ===== src/Graph/Disjoint.antt =====
-- `common_ancestor`: where it finds none, the two histories have no commit in common.
use clayers.Prelude.{
  ℕ, zero, suc, ◌≡◌, inl, inr, true, false, ◌||◌, Option, none, List, [], ◌∷◌, arith, contains,
  nat_eq, ◌==◌, ==_iff, Bool-cases,
}
use clayers.Error.{ContentHash, Result, ok}
use clayers.Object.{Object}
use clayers.Store.{fetch}
use clayers.Store.Subtree.Reach.{here, step}
use clayers.Graph.{more, parents_of, rounds, common_ancestor}
use clayers.Graph.Queue.{Grows, scan-Grows, scan-disjoint}
use clayers.Graph.Rounds.{
  Ancestor, Expanded, met, met_parent, idle, pushed, exhausted, found_a, found_b, on, rounds-Round,
}

abbrev Disjoint : List ContentHash → List ContentHash → Type 0
Disjoint xs ys = (h : ContentHash) → contains xs h ≡ true → contains ys h ≡ false

Disjoint-sym : (xs ys : List ContentHash) → Disjoint xs ys → Disjoint ys xs
Disjoint-sym xs ys d h m = elim (Bool-cases (contains xs h)) [
  | inl n ↦ absurd (ground (arith, d h n))
  | inr n ↦ n
]

module _ (get : ContentHash → Result (Option Object)) where
  -- A side holds its tip, and the parents of its hashes that no longer wait.
  record IsClosed (tip : ContentHash) (visited queue : List ContentHash) : Type 0 where
    tip_in : contains visited tip ≡ true
    closed :
        (u v : ContentHash) (o : Object)
        → contains visited u ≡ true
        → fetch get u ≡ ok o
        → contains (parents_of o) v ≡ true
        → (contains queue u || contains visited v) ≡ true

  IsClosed-start : (tip : ContentHash) → IsClosed tip (tip ∷ []) (tip ∷ [])
  IsClosed-start tip = record {
    tip_in = ground (arith, ==_iff tip tip);
    closed = λ u v o m f p. ground arith;
  }

  IsClosed-pushed :
      (tip u : ContentHash) (mine rest after queue' : List ContentHash) (o : Object)
      → IsClosed tip mine (u ∷ rest)
      → fetch get u ≡ ok o
      → Grows (parents_of o) mine rest after queue'
      → IsClosed tip after queue'
  IsClosed-pushed tip u mine rest after queue' o b f g = record {
    tip_in = ground (arith, g.visited tip, b.tip_in);
    closed = λ w v o' m f' p.
        ground (arith, f, f', g.visited w, g.visited v, g.waiting w, b.closed w v o', ==_iff u w);
  }

  step-IsClosed :
      (tip : ContentHash) (mine queue others after queue' : List ContentHash)
      → IsClosed tip mine queue
      → Expanded get mine queue others (more after queue')
      → IsClosed tip after queue'
  step-IsClosed tip mine queue others after queue' b (met d rest e m s) = cc
  step-IsClosed tip mine queue others after queue' b (met_parent u d rest o e f p m s) = cc
  step-IsClosed tip mine queue others after queue' b (idle e s) =
      let same : after ≡ mine = ground (arith, s) in
      let none_left : queue' ≡ queue = ground (arith, s, e) in rw (same, none_left) b
  step-IsClosed tip mine queue others after queue' b (pushed u rest o after' queue'' e n f p s) =
      let same : after ≡ after' = ground (arith, s) in
      let waiting : queue' ≡ queue'' = ground (arith, s) in
      rw (same, waiting)
        (IsClosed-pushed tip u mine rest after' queue'' o (rw e at b) f
          (scan-Grows (parents_of o) mine rest others after' queue'' p))

  step-Disjoint :
      (mine queue others after queue' : List ContentHash)
      → Disjoint mine others
      → Expanded get mine queue others (more after queue')
      → Disjoint after others
  step-Disjoint mine queue others after queue' d (met c rest e m s) h n = cc
  step-Disjoint mine queue others after queue' d (met_parent u c rest o e f p m s) h n = cc
  step-Disjoint mine queue others after queue' d (idle e s) h m = d h (ground (arith, s))
  step-Disjoint mine queue others after queue' d (pushed u rest o after' queue'' e n f p s) h m =
      elim (Bool-cases (contains mine h)) [
        | inl old ↦ d h old
        | inr new ↦
            scan-disjoint (parents_of o) mine rest others after' queue'' h p (ground (arith, s)) new
      ]

  Ancestor-mem :
      (tip : ContentHash) (visited : List ContentHash) {h : ContentHash}
      → IsClosed tip visited []
      → Ancestor get tip h
      → contains visited h ≡ true
  Ancestor-mem tip visited c here = c.tip_in
  Ancestor-mem tip visited c (step {u} {v} o r e p) =
      ground (arith, c.closed u v o (Ancestor-mem tip visited c r) e p)

  rounds_complete :
      (fuel : ℕ) (a b : ContentHash) (va qa vb qb : List ContentHash)
      → IsClosed a va qa
      → IsClosed b vb qb
      → Disjoint va vb
      → rounds get fuel va qa vb qb ≡ ok none
      → (c : ContentHash) → Ancestor get a c
      → ¬ Ancestor get b c
  unfolding rounds
  rounds_complete zero a b va qa vb qb ia ib d e c p q = cc
  rounds_complete (suc fuel) a b va qa vb qb ia ib d e c p q =
      elim (rounds-Round get fuel va qa vb qb none e) [
        | exhausted x y z ↦
            let m = Ancestor-mem a va (rw x at ia) p in
            let n = Ancestor-mem b vb (rw y at ib) q in ground (arith, d c m)
        | found_a _ x z ↦ cc
        | found_b va' qa' _ x y z ↦ cc
        | on va' qa' vb' qb' x y k ↦
            let d' = step-Disjoint va qa vb va' qa' d x in
            rounds_complete fuel a b va' qa' vb' qb' (step-IsClosed a va qa vb va' qa' ia x)
              (step-IsClosed b vb qb va' vb' qb' ib y)
              (Disjoint-sym vb' va' (step-Disjoint vb qb va' vb' qb' (Disjoint-sym va' vb d') y)) k
              c p q
      ]

  -- If `common_ancestor` answers that there is none, then no commit is an ancestor of both.
  pub common_ancestor_complete :
      (fuel : ℕ) (a b : ContentHash)
      → common_ancestor get fuel a b ≡ ok none
      → (c : ContentHash) → Ancestor get a c
      → ¬ Ancestor get b c
  unfolding common_ancestor
  common_ancestor_complete fuel a b e = elim (Bool-cases (a == b)) [
    | inl same ↦ absurd (ground arith)
    | inr differ ↦
        rounds_complete fuel a b (a ∷ []) (a ∷ []) (b ∷ []) (b ∷ []) (IsClosed-start a)
          (IsClosed-start b) (λ h m. ground (arith, ==_iff a h, ==_iff b h)) (rw differ at e)
  ]
