-- ===== src/Graph/History.antt =====
-- `walk_history` without a limit: the commits that the parents lead to, each once.
use clayers.Prelude.{
  ℕ, zero, suc, ◌≡◌, refl, ◌≢◌, ◌↔◌, inl, inr, true, false, ◌||◌, Option, none, some, List, [], ◌∷◌,
  ◌++◌, arith, contains, contains-append, distinct, nat_eq, ◌==◌, ==_iff, Bool-cases, if◌then◌else◌,
}
use clayers.Prelude.Dict.{keys, lookup}
use clayers.Error.{ContentHash, Result, ok, >>=-eq-ok}
use clayers.Object.{Object, commit, CommitObject}
use clayers.Store.{fetch}
use clayers.Store.Subtree.Reach.{Reach, here, step}
use clayers.Graph.{parents_of, enqueue, history, walk_history}
use clayers.Graph.Queue.{Within, enqueue-Grows}

abbrev pub Log : Type 0
Log = List (ContentHash × CommitObject)

lookup-append :
    (h : ContentHash) (xs ys : Log)
    → lookup h (xs ++ ys) ≡ (if contains (keys xs) h then lookup h xs else lookup h ys)
unfolding lookup
lookup-append h [] ys = refl
lookup-append h ((k, c) ∷ xs) ys = ground (arith, lookup-append h xs ys)

lookup-one :
    (k h : ContentHash) (c : CommitObject)
    → lookup k ((h, c) ∷ []) ≡ (if h == k then some c else none)
unfolding lookup
lookup-one k h c = refl

contains-keys-append :
    (h : ContentHash) (xs ys : Log)
    → contains (keys (xs ++ ys)) h ≡ (contains (keys xs) h || contains (keys ys) h)
contains-keys-append h [] ys = refl
contains-keys-append h ((k, c) ∷ xs) ys = ground (arith, contains-keys-append h xs ys)

distinct-append_one :
    (xs : Log) (h : ContentHash) (c : CommitObject)
    → contains (keys xs) h ≡ false
    → distinct (keys xs) ≡ true
    → distinct (keys (xs ++ (h, c) ∷ [])) ≡ true
distinct-append_one [] h c n d = refl
distinct-append_one ((k, c') ∷ xs) h c n d = ground (
  arith,
  distinct-append_one xs h c,
  contains-keys-append k xs ((h, c) ∷ []),
  ==_iff k h,
  ==_iff h k,
)

distinct-tail :
    (h : ContentHash) (q : List ContentHash)
    → distinct (h ∷ q) ≡ true
    → (contains q h ≡ false) × (distinct q ≡ true)
distinct-tail h q d = ground arith

distinct-push :
    (q : List ContentHash) (p : ContentHash)
    → contains q p ≡ false
    → distinct q ≡ true
    → distinct (q ++ p ∷ []) ≡ true
distinct-push [] p n d = refl
distinct-push (h ∷ q) p n d =
    ground (arith, distinct-push q p, contains-append q (p ∷ []) h, ==_iff p h, ==_iff h p)

enqueue-distinct :
    (ps visited queue : List ContentHash)
    → distinct queue ≡ true
    → Within queue visited
    → distinct (enqueue ps visited queue).1 ≡ true
unfolding enqueue
enqueue-distinct [] visited queue d w = d
enqueue-distinct (p ∷ ps) visited queue d w = elim (Bool-cases (contains visited p)) [
  | inl old ↦ rw (old, enqueue) (enqueue-distinct ps visited queue d w)
  | inr new ↦
      rw (new, enqueue)
        (enqueue-distinct ps (p ∷ visited) (queue ++ p ∷ [])
          (distinct-push queue p (ground (arith, w p)) d)
          (λ h m. ground (arith, w h, contains-append queue (p ∷ []) h)))
]

module _ (get : ContentHash → Result (Option Object)) where
  -- What holds before each round.
  record Walking (from : ContentHash) (result : Log) (queue visited : List ContentHash)
      : Type 0 where
    fetched :
        (h : ContentHash) (c : CommitObject)
        → lookup h result ≡ some c
        → fetch get h ≡ ok (commit c)
    once : distinct (keys result) ≡ true
    queue_once : distinct queue ≡ true
    queued : Within queue visited
    logged : Within (keys result) visited
    apart : (h : ContentHash) → contains queue h ≡ true → contains (keys result) h ≡ false
    start : contains visited from ≡ true
    reached : (h : ContentHash) → contains visited h ≡ true → Reach parents_of get from h
    closed :
        (u v : ContentHash) (o : Object)
        → contains visited u ≡ true
        → fetch get u ≡ ok o
        → contains (parents_of o) v ≡ true
        → (contains queue u || contains visited v) ≡ true
    kept :
        (u : ContentHash) (c : CommitObject)
        → contains visited u ≡ true
        → fetch get u ≡ ok (commit c)
        → (contains queue u || contains (keys result) u) ≡ true

  Walking-commit :
      (from h : ContentHash) (c : CommitObject) (result : Log) (queue visited : List ContentHash)
      → Walking from result (h ∷ queue) visited
      → fetch get h ≡ ok (commit c)
      → Walking from
          (result ++ (h, c) ∷ [])
          (enqueue c.parents visited queue).1
          (enqueue c.parents visited queue).0
  Walking-commit from h c result queue visited w f =
      let g = enqueue-Grows c.parents visited queue in
      let h_in = w.queued h (ground (arith, ==_iff h h)) in
      let new = w.apart h (ground (arith, ==_iff h h)) in
      let (not_waiting, queue_once') = distinct-tail h queue w.queue_once in
      let keys' = λ (k : ContentHash). contains-keys-append k result ((h, c) ∷ []) in
      record {
        fetched = λ k c' e. ground (
          arith,
          lookup-append k result ((h, c) ∷ []),
          lookup-one k h c,
          w.fetched k c',
          ==_iff h k,
          e,
          f,
        );
        once = distinct-append_one result h c new w.once;
        queue_once =
            enqueue-distinct c.parents visited queue queue_once' (λ k m. w.queued k (ground arith));
        queued = λ k m. ground (arith, g.visited k, g.waiting k, w.queued k);
        logged = λ k m. ground (arith, g.visited k, keys' k, w.logged k, ==_iff h k);
        apart = λ k m.
            ground (arith, g.waiting k, keys' k, w.apart k, w.logged k, ==_iff h k, not_waiting);
        start = ground (arith, g.visited from, w.start);
        reached = λ k m. elim (Bool-cases (contains visited k)) [
          | inl old ↦ w.reached k old
          | inr fresh ↦ step (commit c) (w.reached h h_in) f (ground (arith, g.visited k))
        ];
        closed = λ u v o m e p.
            ground (arith, g.visited u, g.visited v, g.waiting u, w.closed u v o, ==_iff h u, f, e);
        kept =
            λ u c' m e. ground (arith, g.visited u, g.waiting u, keys' u, w.kept u c', ==_iff h u);
      }

  -- An object that is no commit has no parents, and is dropped.
  Walking-other :
      (from h : ContentHash) (o : Object) (result : Log) (queue visited : List ContentHash)
      → Walking from result (h ∷ queue) visited
      → fetch get h ≡ ok o
      → ((c : CommitObject) → o ≢ commit c)
      → parents_of o ≡ []
      → Walking from result queue visited
  Walking-other from h o result queue visited w f other none_there = record {
    fetched = w.fetched;
    once = w.once;
    queue_once = (distinct-tail h queue w.queue_once).1;
    queued = λ k m. w.queued k (ground arith);
    logged = w.logged;
    apart = λ k m. w.apart k (ground arith);
    start = w.start;
    reached = w.reached;
    closed = λ u v o' m e p. ground (arith, w.closed u v o', ==_iff h u, f, e, none_there, p);
    kept = λ u c m e. ground (arith, w.kept u c, ==_iff h u, f, e, other c);
  }

  history-Walking :
      (fuel : ℕ) (from : ContentHash) (result log : Log) (queue visited : List ContentHash)
      → Walking from result queue visited
      → history get fuel none result queue visited ≡ ok log
      → (visited' : List ContentHash) × Walking from log [] visited'
  unfolding history
  history-Walking zero from result log queue visited w e = cc
  history-Walking (suc fuel) from result log [] visited w e =
      let same : log ≡ result = ground arith in (visited, rw same w)
  history-Walking (suc fuel) from result log (h ∷ queue) visited w e =
      let (o, f, k) = >>=-eq-ok (fetch get h) _ e in after_fetch (history-Walking fuel from) o f k
    where
      after_fetch :
          ((result log : Log) (queue visited : List ContentHash)
            → Walking from result queue visited
            → history get fuel none result queue visited ≡ ok log
            → (visited' : List ContentHash) × Walking from log [] visited')
          → (o : Object) → fetch get h ≡ ok o
          → (elim o as (λ _. Result Log) [
            | commit c ↦
                let (visited', queue') = enqueue c.parents visited queue in
                history get fuel none (result ++ (h, c) ∷ []) queue' visited'
            | _ ↦ history get fuel none result queue visited
          ])
            ≡ ok log
          → (visited' : List ContentHash) × Walking from log [] visited'
      after_fetch rec (commit c) f k =
          rec _ log _ _ (Walking-commit from h c result queue visited w f) k
      after_fetch rec o f k =
          rec result log queue visited
            (Walking-other from h o result queue visited w f (λ c p. cc) refl) k

  Walking-start : (from : ContentHash) → Walking from [] (from ∷ []) (from ∷ [])
  unfolding lookup
  Walking-start from = record {
    fetched = λ h c e. cc;
    once = refl;
    queue_once = refl;
    queued = λ h m. m;
    logged = λ h m. cc;
    apart = λ h m. refl;
    start = ground (arith, ==_iff from from);
    reached = λ h m. rw (← (==_iff from h).0 (ground arith)) here;
    closed = λ u v o m e p. ground arith;
    kept = λ u c m e. ground arith;
  }

  Reach-visited :
      (from : ContentHash) (log : Log) (visited : List ContentHash) {h : ContentHash}
      → Walking from log [] visited
      → Reach parents_of get from h
      → contains visited h ≡ true
  Reach-visited from log visited w here = w.start
  Reach-visited from log visited w (step {u} {v} o r e p) =
      ground (arith, w.closed u v o (Reach-visited from log visited w r) e p)

  lookup-logged :
      (log : Log) (h : ContentHash)
      → contains (keys log) h ≡ true
      → (c : CommitObject) × (lookup h log ≡ some c)
  unfolding lookup
  lookup-logged [] h m = cc
  lookup-logged ((k, c) ∷ log) h m = elim (Bool-cases (k == h)) [
    | inl same ↦ (c, rw same)
    | inr other ↦ let (c', e) = lookup-logged log h (ground arith) in (c', ground arith)
  ]

  contains_of_lookup :
      (log : Log) (h : ContentHash) (c : CommitObject)
      → lookup h log ≡ some c
      → contains (keys log) h ≡ true
  unfolding lookup
  contains_of_lookup [] h c e = cc
  contains_of_lookup ((k, c') ∷ log) h c e = ground (arith, contains_of_lookup log h c)

  -- If `walk_history` without a limit gives a log, no hash stands in it twice, and it has a commit
  -- under a hash exactly when the hash is reachable from the start through parents and the store has
  -- that commit there.
  pub walk_history_exact :
      (fuel : ℕ) (from : ContentHash) (log : Log)
      → walk_history get fuel from none ≡ ok log
      → (distinct (keys log) ≡ true)
        × ((h : ContentHash) (c : CommitObject)
            → (lookup h log ≡ some c)
              ↔ (Reach parents_of get from h × (fetch get h ≡ ok (commit c))))
  unfolding walk_history
  walk_history_exact fuel from log e =
      let (visited, w) = history-Walking fuel from [] log _ _ (Walking-start from) e in
      (
        w.once,
        λ h c. (
          λ found.
              (w.reached h (w.logged h (contains_of_lookup log h c found)), w.fetched h c found),
          λ p.
              let seen = Reach-visited from log visited w p.0 in
              let (c', found) = lookup-logged log h (ground (arith, w.kept h c seen p.1)) in
              ground (arith, w.fetched h c' found, found, p.1),
        ),
      )
