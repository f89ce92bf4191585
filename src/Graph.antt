-- ===== src/Graph.antt =====
-- Commit graph traversal (crates/clayers-repo/src/graph.rs).
pub mod Queue
pub mod Rounds
pub mod Common
pub mod Disjoint
pub mod CommonEnds
pub mod History
pub mod HistoryEnds
use clayers.Prelude.{
  ℕ, zero, suc, Bool, true, false, Option, none, some, List, [], ◌∷◌, ◌++◌, length, leb, contains,
  nat_eq, ◌==◌, if◌then◌else◌,
}
use clayers.Error.{ContentHash, Result, ok, err, out_of_fuel, ◌>>=◌}
use clayers.Object.{Object, commit, CommitObject}
use clayers.Store.{fetch}

-- Objects that are no commits have no parents.
abbrev pub parents_of : Object → List ContentHash
parents_of (commit c) = c.parents
parents_of _ = []

-- What expanding one side of the search gives: a common hash, or the side's new visited set and queue.
pub data Side : Type 0 where
  found : ContentHash → Side
  more : List ContentHash → List ContentHash → Side

-- The loop over the parents: `mine` and `queue` are this side's, `others` the other side's set.
unfoldable pub scan :
    List ContentHash → List ContentHash → List ContentHash → List ContentHash → Side
scan [] mine queue others = more mine queue
scan (p ∷ ps) mine queue others = elim (contains mine p) [
  | true ↦ scan ps mine queue others
  | false ↦ elim (contains others p) [
    | true ↦ found p
    | false ↦ scan ps (p ∷ mine) (queue ++ p ∷ []) others
  ]
]

-- The loop over a commit's parents in `walk_history`: the new visited set and the new queue.
unfoldable pub enqueue :
    List ContentHash → List ContentHash → List ContentHash → List ContentHash × List ContentHash
enqueue [] visited queue = (visited, queue)
enqueue (p ∷ ps) visited queue = elim (contains visited p) [
  | true ↦ enqueue ps visited queue
  | false ↦ enqueue ps (p ∷ visited) (queue ++ p ∷ [])
]

abbrev pub limit_reached : Option ℕ → ℕ → Bool
limit_reached none n = false
limit_reached (some max) n = leb max n

module _ (get : ContentHash → Result (Option Object)) where
  unfoldable pub get_commit_parents : ContentHash → Result (List ContentHash)
  get_commit_parents h = fetch get h >>= λ o. ok (parents_of o)

  -- One side: pop the front of its queue, if there is one, and look at its parents.
  unfoldable pub expand : List ContentHash → List ContentHash → List ContentHash → Result Side
  expand mine [] others = ok (more mine [])
  expand mine (current ∷ queue) others =
      if contains others current
      then ok (found current)
      else get_commit_parents current >>= λ ps. ok (scan ps mine queue others)

  -- The `loop`, side A and then side B in each round.
  unfoldable pub rounds :
      ℕ
      → List ContentHash
      → List ContentHash
      → List ContentHash
      → List ContentHash
      → Result (Option ContentHash)
  rounds zero va qa vb qb = out_of_fuel
  rounds (suc fuel) va [] vb [] = ok none
  rounds (suc fuel) va qa vb qb = expand va qa vb >>= elim [
    | found c ↦ ok (some c)
    | more va' qa' ↦
        expand vb qb va'
        >>= elim [ found c ↦ ok (some c) | more vb' qb' ↦ rounds fuel va' qa' vb' qb' ]
  ]

  unfoldable pub common_ancestor : ℕ → ContentHash → ContentHash → Result (Option ContentHash)
  common_ancestor fuel a b =
      if a == b then ok (some a) else rounds fuel (a ∷ []) (a ∷ []) (b ∷ []) (b ∷ [])

  -- The `while` loop of `walk_history`.
  unfoldable pub history :
      ℕ
      → Option ℕ
      → List (ContentHash × CommitObject)
      → List ContentHash
      → List ContentHash
      → Result (List (ContentHash × CommitObject))
  history zero limit result queue visited = out_of_fuel
  history (suc fuel) limit result [] visited = ok result
  history (suc fuel) limit result (h ∷ queue) visited = elim (limit_reached limit (length result)) [
    | true ↦ ok result
    | false ↦ fetch get h >>= elim [
      | commit c ↦
          let (visited', queue') = enqueue c.parents visited queue in
          history fuel limit (result ++ (h, c) ∷ []) queue' visited'
      | _ ↦ history fuel limit result queue visited
    ]
  ]

  unfoldable pub walk_history :
      ℕ → ContentHash → Option ℕ → Result (List (ContentHash × CommitObject))
  walk_history fuel from limit = history fuel limit [] (from ∷ []) (from ∷ [])
