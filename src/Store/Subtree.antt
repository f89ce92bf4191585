-- ===== src/Store/Subtree.antt =====
-- `subtree_walk` (crates/clayers-repo/src/store/mod.rs) over any way to get objects, and
-- `try_collect_stream` (conflict.rs, export.rs, sync.rs and query/mod.rs have one copy each).
pub mod Reach
pub mod Yields
pub mod Ends
pub mod Exact
use clayers.Prelude.{ℕ, zero, suc, true, false, Option, List, [], ◌∷◌, push_all, contains, nat_eq}
use clayers.Prelude.Dict.{Dict, insert}
use clayers.Error.{ContentHash, Result, ok, err, out_of_fuel, ◌>>=◌}
use clayers.Object.{Object, links}
use clayers.Store.{ObjectStream, fetch}

pub nothing : Result (Unit {0}) → ObjectStream
nothing r = record { items = []; ending = r }

pub yielding : ContentHash → Object → ObjectStream → ObjectStream
yielding h o s = record s { items = (h, o) ∷ s.items }

module _ (get : ContentHash → Result (Option Object)) where
  -- The `while` loop: the visited set, and the stack with its top first.
  unfoldable pub walk : ℕ → List ContentHash → List ContentHash → ObjectStream
  unfolding nothing yielding
  walk zero visited stack = nothing out_of_fuel
  walk (suc fuel) visited [] = nothing (ok tt)
  walk (suc fuel) visited (h ∷ stack) = elim (contains visited h) [
    | true ↦ walk fuel visited stack
    | false ↦ elim (fetch get h) [
      | ok o ↦ yielding h o (walk fuel (h ∷ visited) (push_all stack (links o)))
      | err e ↦ nothing (err e)
      | out_of_fuel ↦ nothing out_of_fuel
    ]
  ]

  unfoldable pub subtree_walk : ℕ → ContentHash → ObjectStream
  subtree_walk fuel root = walk fuel [] (root ∷ [])

abbrev pub collect_items :
    Dict ContentHash Object → List (ContentHash × Object) → Dict ContentHash Object
collect_items map [] = map
collect_items map ((h, o) ∷ items) = collect_items (insert h o map) items

-- The map of the items, or the error that ended the stream.
unfoldable pub try_collect_stream : ObjectStream → Result (Dict ContentHash Object)
try_collect_stream s = s.ending >>= λ _. ok (collect_items [] s.items)
