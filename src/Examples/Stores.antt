-- ===== src/Examples/Stores.antt =====
-- The in-memory store, and walks over it.
use clayers.Prelude.{
  arith, ◌≡◌, refl, ◌↔◌, ◌≢◌, some, List, [], ◌∷◌, nat_eq, string_eq, true, false,
}
use clayers.Prelude.Dict.{Dict, lookup, insert}
use clayers.Error.{ContentHash, ok, out_of_fuel}
use clayers.Object.{Object, links, text, TreeEntry}
use clayers.Object.Tree
use clayers.Object.Tree.{find_entry}
use clayers.Object.Tree.Sorted.{IsSorted, new-IsSorted, new-perm}
use mathlib.Core.List.{Permᴰ}
use clayers.Store.{fetch}
use clayers.Store.Memory
use clayers.Store.Memory.{write_batch, cas_ref, get_ref, set_ref, delete_ref, begin, flush}
use clayers.Store.Memory.Transactions.{IsIndexed, write_batch-IsIndexed}
use clayers.Store.Memory.Lifecycle.{Call, run, replies, outcome, run-begin}
use clayers.Store.Memory.Refs.{cas_ref_atomic}
use clayers.Store.Subtree.{subtree_walk, walk, try_collect_stream}
use clayers.Store.Subtree.Reach.{Reach}
use clayers.Store.Subtree.Exact.{collect_exact}
use clayers.Store.Subtree.Ends.{walk_fuel, subtree_walk_ends}
use clayers.Examples.Data.{origin, clone, newer, body}

abbrev collected : Dict ContentHash Object
collected =
    (3, Object.document (record { root = 2; prologue = [] }))
    ∷ (2, Object.element body)
    ∷ (1, text (record { content = "hello" }))
    ∷ []

gathered : try_collect_stream (subtree_walk (Memory.get origin) 10 3) ≡ ok collected
unfolding try_collect_stream subtree_walk walk fetch Memory.get lookup insert
gathered = refl

collect_exact_example : (lookup 2 collected ≡ some (Object.element body)) ↔ (
    Reach links (Memory.get origin) 3 2 × (fetch (Memory.get origin) 2 ≡ ok (Object.element body)))
collect_exact_example =
    collect_exact (Memory.get origin) 10 3 collected 2 (Object.element body) gathered

subtree_walk_ends_example :
    (subtree_walk (Memory.get origin) (walk_fuel newer) 8).ending ≢ out_of_fuel
unfolding Memory.get
subtree_walk_ends_example = subtree_walk_ends (Memory.get origin) newer (λ h. refl) 8

abbrev batch : List (ContentHash × Object)
batch = (9, text (record { content = "x" })) ∷ (9, text (record { content = "y" })) ∷ []

abbrev calls : List Call
calls = Call.put 9 (text (record { content = "x" })) ∷ Call.commit ∷ Call.rollback ∷ []

run-begin_example :
    ((run calls begin clone).0 ≡ replies calls)
    × ((run calls begin clone).2 ≡ outcome [] calls clone)
run-begin_example = run-begin calls clone

cas_ref_atomic_example :
    (((cas_ref "refs/heads/main" (some 6) 7 clone).0 ≡ ok true)
      ↔ (get_ref clone "refs/heads/main" ≡ ok (some 6)))
    × (((cas_ref "refs/heads/main" (some 6) 7 clone).0 ≡ ok true)
        → (cas_ref "refs/heads/main" (some 6) 7 clone).1 ≡ (set_ref "refs/heads/main" 7 clone).1)
    × (get_ref clone "refs/heads/main" ≢ ok (some 6)
        → ((cas_ref "refs/heads/main" (some 6) 7 clone).0 ≡ ok false)
          × ((cas_ref "refs/heads/main" (some 6) 7 clone).1 ≡ clone))
cas_ref_atomic_example = cas_ref_atomic clone "refs/heads/main" (some 6) 7

indexed : IsIndexed clone
unfolding lookup
indexed = record { at = λ i h e. ground (arith, e) }

write_batch-IsIndexed_example : IsIndexed (write_batch batch clone).1
write_batch-IsIndexed_example = write_batch-IsIndexed batch clone indexed

abbrev files : List TreeEntry
files = record { path = "b.xml"; document = 3 } ∷ record { path = "a.xml"; document = 3 } ∷ []

new-IsSorted_example : IsSorted (Tree.new files).entries
new-IsSorted_example = new-IsSorted files

abbrev sorted_files : List TreeEntry
sorted_files =
    record { path = "a.xml"; document = 3 } ∷ record { path = "b.xml"; document = 3 } ∷ []

new-perm_example : Tree.new files ≡ Tree.new sorted_files
new-perm_example = new-perm (Permᴰ.swap refl refl) refl
