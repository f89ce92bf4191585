-- ===== src/Store/Subtree/Ends.antt =====
-- Over a finite set of objects a walk ends: each round pops a hash, and what a new object pushes is
-- counted among the links of the objects that were not visited before.
use clayers.Prelude.{
  ℕ, zero, suc, ◌+◌, ◌≤◌, ◌<◌, ◌≡◌, ◌≢◌, inl, inr, false, Option, some, List, [], ◌∷◌, arith,
  length, length-push_all, push_all, contains, nat_eq, ==_iff, Bool-cases, if◌then◌else◌,
}
use clayers.Prelude.Dict.{Dict, lookup}
use clayers.Error.{ContentHash, Result, ok, out_of_fuel, Result-cases}
use clayers.Object.{Object, links}
use clayers.Store.{fetch}
use clayers.Store.Subtree.{walk, subtree_walk}
use clayers.Store.Subtree.Yields.{walk_seen, walk_new}

-- The links of the objects that were not visited.
abbrev pub unvisited_links : List ContentHash → Dict ContentHash Object → ℕ
unvisited_links visited [] = 0
unvisited_links visited ((h, o) ∷ d) =
    (if contains visited h then 0 else length (links o)) + unvisited_links visited d

unvisited_links_mono :
    (visited : List ContentHash) (h : ContentHash) (d : Dict ContentHash Object)
    → unvisited_links (h ∷ visited) d ≤ unvisited_links visited d
unvisited_links_mono visited h [] = omega arith
unvisited_links_mono visited h ((k, o) ∷ d) = ground (arith, unvisited_links_mono visited h d)

unvisited_links_visit :
    (visited : List ContentHash) (h : ContentHash) (o : Object) (d : Dict ContentHash Object)
    → contains visited h ≡ false
    → lookup h d ≡ some o
    → unvisited_links (h ∷ visited) d + length (links o) ≤ unvisited_links visited d
unfolding lookup
unvisited_links_visit visited h o [] new e = cc
unvisited_links_visit visited h o ((k, o') ∷ d) new e = ground (
  arith,
  unvisited_links_visit visited h o d,
  unvisited_links_mono visited h d,
  ==_iff k h,
  ==_iff h k,
)

-- The rounds that a walk from one root takes at most, and one more.
abbrev pub walk_fuel : Dict ContentHash Object → ℕ
walk_fuel d = suc (suc (unvisited_links [] d))

module _ (get : ContentHash → Result (Option Object)) (d : Dict ContentHash Object)
    (stored : (h : ContentHash) → get h ≡ ok (lookup h d)) where
  lookup_of_fetch : (h : ContentHash) (o : Object) → fetch get h ≡ ok o → lookup h d ≡ some o
  unfolding fetch
  lookup_of_fetch h o e = ground (arith, stored h)

  fetch-ne-out_of_fuel : (h : ContentHash) → fetch get h ≢ out_of_fuel
  unfolding fetch
  fetch-ne-out_of_fuel h = ground (arith, stored h)

  pub walk_ends :
      (fuel : ℕ) (visited stack : List ContentHash)
      → length stack + unvisited_links visited d < fuel
      → (walk get fuel visited stack).ending ≢ out_of_fuel
  unfolding walk
  walk_ends zero visited stack enough = absurd (omega arith)
  walk_ends (suc fuel) visited [] enough = λ h. cc
  walk_ends (suc fuel) visited (h ∷ stack) enough = elim (Bool-cases (contains visited h)) [
    | inl seen ↦
        rw (walk_seen get fuel visited h stack seen) (walk_ends fuel visited stack (omega arith))
    | inr new ↦ elim (Result-cases (fetch get h)) [
      | inl (o, e) ↦ rw (walk_new get fuel visited h stack o new e) (
          walk_ends fuel (h ∷ visited) (push_all stack (links o)) (
            omega (
              arith,
              length-push_all stack (links o),
              unvisited_links_visit visited h o d new (lookup_of_fetch h o e),
            )))
      | inr (inl (e, failed)) ↦ ground arith
      | inr (inr stopped) ↦ absurd (fetch-ne-out_of_fuel h stopped)
    ]
  ]

  -- Over a store that holds the objects of a finite map, `subtree_walk` ends from any root within
  -- `walk_fuel` rounds.
  pub subtree_walk_ends :
      (root : ContentHash) → (subtree_walk get (walk_fuel d) root).ending ≢ out_of_fuel
  unfolding subtree_walk
  subtree_walk_ends root = walk_ends (walk_fuel d) [] (root ∷ []) (omega arith)
