-- ===== src/Graph/Queue.antt =====
-- The inner loops over a commit's parents: what they add to the visited sets and the queues.
use clayers.Prelude.{
  ℕ, ◌+◌, ◌≤◌, ◌<◌, ◌≡◌, inl, inr, true, false, ◌||◌, not, ◌&&◌, List, [], ◌∷◌, ◌++◌, arith, length,
  length-append, contains, contains-append, nat_eq, ==_iff, Bool-cases, if◌then◌else◌,
}
use clayers.Error.{ContentHash}
use clayers.Graph.{found, more, scan, enqueue}

-- Every hash of the first list is in the second.
abbrev pub Within : List ContentHash → List ContentHash → Type 0
Within xs ys = (h : ContentHash) → contains xs h ≡ true → contains ys h ≡ true

-- The hashes of `all` that are not visited, counted as often as they stand there.
abbrev pub unseen : List ContentHash → List ContentHash → ℕ
unseen visited [] = 0
unseen visited (h ∷ all) = (if contains visited h then 0 else 1) + unseen visited all

unseen_mono :
    (visited : List ContentHash) (h : ContentHash) (all : List ContentHash)
    → unseen (h ∷ visited) all ≤ unseen visited all
unseen_mono visited h [] = omega arith
unseen_mono visited h (k ∷ all) = ground (arith, unseen_mono visited h all)

pub unseen-le-length : (visited all : List ContentHash) → unseen visited all ≤ length all
unseen-le-length visited [] = omega arith
unseen-le-length visited (h ∷ all) = ground (arith, unseen-le-length visited all)

pub unseen_visit :
    (visited : List ContentHash) (h : ContentHash) (all : List ContentHash)
    → contains visited h ≡ false
    → contains all h ≡ true
    → unseen (h ∷ visited) all < unseen visited all
unseen_visit visited h [] new m = cc
unseen_visit visited h (k ∷ all) new m =
    ground (arith, unseen_visit visited h all, unseen_mono visited h all, ==_iff k h, ==_iff h k)

-- The two states of a side, before and after a scan that found nothing.
pub record Grows (ps before queue after queue' : List ContentHash) : Type 0 where
  -- A hash is visited exactly if it was, or is one of the parents.
  pub visited : (h : ContentHash) → contains after h ≡ (contains before h || contains ps h)
  -- A hash waits exactly if it did, or is a parent that was not visited.
  pub waiting :
      (h : ContentHash)
      → contains queue' h ≡ (contains queue h || contains ps h && not (contains before h))
  -- Each push is paid for by a hash that was not visited.
  pub paid :
      (all : List ContentHash)
      → Within ps all
      → length queue' + unseen after all ≤ length queue + unseen before all

Grows-skip :
    (p : ContentHash) (ps before queue after queue' : List ContentHash)
    → contains before p ≡ true
    → Grows ps before queue after queue'
    → Grows (p ∷ ps) before queue after queue'
Grows-skip p ps before queue after queue' old g = record {
  visited = λ h. ground (arith, g.visited h, ==_iff p h);
  waiting = λ h. ground (arith, g.waiting h, ==_iff p h);
  paid = λ all w. g.paid all (λ h m. w h (ground arith));
}

Grows-push :
    (p : ContentHash) (ps before queue after queue' : List ContentHash)
    → contains before p ≡ false
    → Grows ps (p ∷ before) (queue ++ p ∷ []) after queue'
    → Grows (p ∷ ps) before queue after queue'
Grows-push p ps before queue after queue' new g = record {
  visited = λ h. ground (arith, g.visited h);
  waiting = λ h. ground (arith, g.waiting h, contains-append queue (p ∷ []) h, ==_iff p h);
  paid = λ all w. omega (
    arith,
    g.paid all (λ h m. w h (ground arith)),
    length-append queue (p ∷ []),
    unseen_visit before p all new (w p (ground (arith, ==_iff p p))),
  );
}

pub enqueue-Grows :
    (ps visited queue : List ContentHash)
    → Grows ps visited queue (enqueue ps visited queue).0 (enqueue ps visited queue).1
unfolding enqueue
enqueue-Grows [] visited queue = record {
  visited = λ h. ground arith;
  waiting = λ h. ground arith;
  paid = λ all w. omega arith;
}
enqueue-Grows (p ∷ ps) visited queue = elim (Bool-cases (contains visited p)) [
  | inl old ↦
      rw (old, enqueue) (Grows-skip p ps visited queue _ _ old (enqueue-Grows ps visited queue))
  | inr new ↦
      rw (new, enqueue)
        (Grows-push p ps visited queue _ _ new (enqueue-Grows ps (p ∷ visited) (queue ++ p ∷ [])))
]

pub scan-Grows :
    (ps mine queue others after queue' : List ContentHash)
    → scan ps mine queue others ≡ more after queue'
    → Grows ps mine queue after queue'
unfolding scan
scan-Grows [] mine queue others after queue' e = record {
  visited = λ h. ground arith;
  waiting = λ h. ground arith;
  paid = λ all w. ground arith;
}
scan-Grows (p ∷ ps) mine queue others after queue' e = elim (Bool-cases (contains mine p)) [
  | inl old ↦
      Grows-skip p ps mine queue after queue' old
        (scan-Grows ps mine queue others after queue' (ground arith))
  | inr new ↦
      Grows-push p ps mine queue after queue' new
        (scan-Grows ps (p ∷ mine) (queue ++ p ∷ []) others after queue' (ground arith))
]

-- What a scan finds is a parent, and the other side has it.
pub scan-found :
    (ps mine queue others : List ContentHash) (c : ContentHash)
    → scan ps mine queue others ≡ found c
    → (contains ps c ≡ true) × (contains others c ≡ true)
unfolding scan
scan-found [] mine queue others c e = cc
scan-found (p ∷ ps) mine queue others c e = ground (
  arith,
  scan-found ps mine queue others c,
  scan-found ps (p ∷ mine) (queue ++ p ∷ []) others c,
  ==_iff p p,
  ==_iff p c,
)

-- A scan that finds nothing has met no hash of the other side, but those that it had.
pub scan-disjoint :
    (ps mine queue others after queue' : List ContentHash) (h : ContentHash)
    → scan ps mine queue others ≡ more after queue'
    → contains after h ≡ true
    → contains mine h ≡ false
    → contains others h ≡ false
unfolding scan
scan-disjoint [] mine queue others after queue' h e m n = ground arith
scan-disjoint (p ∷ ps) mine queue others after queue' h e m n = ground (
  arith,
  scan-disjoint ps mine queue others after queue' h,
  scan-disjoint ps (p ∷ mine) (queue ++ p ∷ []) others after queue' h,
  ==_iff p h,
)
