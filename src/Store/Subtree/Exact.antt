-- ===== src/Store/Subtree/Exact.antt =====
-- The map that a collected walk gives is exactly what lies below the root.
use clayers.Prelude.{
  ℕ, ◌≡◌, refl, ◌↔◌, inl, inr, true, ◌||◌, Option, some, List, [], ◌∷◌, arith, contains, distinct,
  nat_eq, ◌==◌, ==_iff, Bool-cases, if◌then◌else◌,
}
use clayers.Prelude.Dict.{Dict, keys, lookup, insert, lookup-insert}
use clayers.Error.{ContentHash, Result, ok}
use clayers.Object.{Object, links}
use clayers.Store.{ObjectStream, fetch}
use clayers.Store.Subtree.{walk, subtree_walk, collect_items, try_collect_stream}
use clayers.Store.Subtree.Reach.{Reach, here, step}
use clayers.Store.Subtree.Yields.{Fetched, Covers, walk-Covers, walk-Reach}

-- With no key twice the map has what the list has, and else what it had.
lookup-collect_items :
    (map : Dict ContentHash Object) (items : List (ContentHash × Object)) (h : ContentHash)
    → distinct (keys items) ≡ true
    → lookup h (collect_items map items)
      ≡ (if contains (keys items) h then lookup h items else lookup h map)
unfolding lookup
lookup-collect_items map [] h d = refl
lookup-collect_items map ((k, o) ∷ items) h d =
    ground
      (arith, lookup-collect_items (insert k o map) items h, lookup-insert h k o map, ==_iff k h)

module _ (get : ContentHash → Result (Option Object)) where
  lookup-Fetched :
      (items : List (ContentHash × Object)) (h : ContentHash)
      → Fetched get items
      → contains (keys items) h ≡ true
      → (o : Object) × (lookup h items ≡ some o) × (fetch get h ≡ ok o)
  unfolding lookup
  lookup-Fetched [] h f m = cc
  lookup-Fetched ((k, o) ∷ items) h f m = elim (Bool-cases (k == h)) [
    | inl same ↦ (o, rw same, rw (← (==_iff k h).0 same) f.0)
    | inr other ↦
        let (o', e, e') = lookup-Fetched items h f.1 (ground arith) in (o', ground arith, e')
  ]

  reached :
      (root : ContentHash) (items : List (ContentHash × Object)) {h : ContentHash}
      → Covers get [] (root ∷ []) items
      → Reach links get root h
      → contains (keys items) h ≡ true
  reached root items c here = ground (arith, c.stacked root, ==_iff root root)
  reached root items c (step {u} {v} o r e l) =
      ground (arith, c.closed u v o (reached root items c r) e l)

  try_collect_stream-eq-ok :
      (s : ObjectStream) (map : Dict ContentHash Object)
      → try_collect_stream s ≡ ok map
      → (s.ending ≡ ok tt) × (collect_items [] s.items ≡ map)
  unfolding try_collect_stream
  try_collect_stream-eq-ok s map h = ground arith

  -- If collecting the stream of `subtree_walk` gives a map, the map has an object under a hash
  -- exactly when the hash is reachable from the root and the store has that object there.
  pub collect_exact :
      (fuel : ℕ) (root : ContentHash) (map : Dict ContentHash Object) (h : ContentHash) (o : Object)
      → try_collect_stream (subtree_walk get fuel root) ≡ ok map
      → (lookup h map ≡ some o) ↔ (Reach links get root h × (fetch get h ≡ ok o))
  unfolding subtree_walk
  collect_exact fuel root map h o collected =
      let items = (walk get fuel [] (root ∷ [])).items in
      let (done, same) = try_collect_stream-eq-ok _ map collected in
      let c = walk-Covers get fuel [] (root ∷ []) done in
      let found = lookup-collect_items [] items h c.once in
      let at = lookup-Fetched items h c.fetched in
      (
        λ e. elim (Bool-cases (contains (keys items) h)) [
          | inl m ↦
              let (o', e', f) = at m in
              (
                walk-Reach get root fuel [] (root ∷ [])
                    (λ k n. rw (← (==_iff root k).0 (ground arith)) here) h m,
                ground (arith, found),
              )
          | inr m ↦ absurd (unfold lookup in ground (arith, found))
        ],
        λ p. let m = reached root items c p.0 in let (o', e', f) = at m in ground (arith, found),
      )

contains-keys-insert :
    (k h : ContentHash) (o : Object) (map : Dict ContentHash Object)
    → contains (keys (insert k o map)) h ≡ (k == h || contains (keys map) h)
unfolding insert
contains-keys-insert k h o [] = refl
contains-keys-insert k h o ((j, o') ∷ map) =
    ground (arith, contains-keys-insert k h o map, ==_iff j k, ==_iff k h, ==_iff j h)

distinct-insert :
    (k : ContentHash) (o : Object) (map : Dict ContentHash Object)
    → distinct (keys map) ≡ true
    → distinct (keys (insert k o map)) ≡ true
unfolding insert
distinct-insert k o [] d = refl
distinct-insert k o ((j, o') ∷ map) d =
    ground (arith, distinct-insert k o map, contains-keys-insert k j o map, ==_iff j k, ==_iff k j)

distinct-collect_items :
    (map : Dict ContentHash Object) (items : List (ContentHash × Object))
    → distinct (keys map) ≡ true
    → distinct (keys (collect_items map items)) ≡ true
distinct-collect_items map [] d = d
distinct-collect_items map ((h, o) ∷ items) d =
    distinct-collect_items (insert h o map) items (distinct-insert h o map d)

-- A collected map has no key twice, as a `HashMap` has not.
pub collect-distinct :
    (s : ObjectStream) (map : Dict ContentHash Object)
    → try_collect_stream s ≡ ok map
    → distinct (keys map) ≡ true
unfolding try_collect_stream
collect-distinct s map e =
    let same : collect_items [] s.items ≡ map = ground (arith, e) in
    rw (← same) (distinct-collect_items [] s.items refl)
