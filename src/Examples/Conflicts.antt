-- ===== src/Examples/Conflicts.antt =====
-- A document with a conflict in it.
use clayers.Prelude.{◌≡◌, refl, some, none, List, [], ◌∷◌, nat_eq}
use clayers.Prelude.Dict.{lookup, insert}
use clayers.Error.{ok}
use clayers.Object.{element, document}
use clayers.Store.{fetch}
use clayers.Store.Memory
use clayers.Store.Memory.{MemoryStore}
use clayers.Store.Memory.Backend.{memory, subtree}
use clayers.Store.Subtree.{subtree_walk, walk, try_collect_stream}
use clayers.Conflict.{
  ConflictInfo, has_conflicts, list_conflicts, collect_conflicts, path_attribute,
}
use clayers.Conflict.Listed.{any_listed, has_conflicts-list_conflicts}
use clayers.Examples.Data.{body}

abbrev divided : MemoryStore
divided = record {
  objects =
      (
        1,
        element (record body {
          local_name = "divergence";
          namespace_uri = some "urn:clayers:repository";
          attributes =
              record {
                local_name = "path";
                namespace_uri = none;
                namespace_prefix = none;
                value = "/body";
              }
              ∷ [];
          children = [];
        }),
      )
      ∷ (2, element body)
      ∷ (3, document (record { root = 2; prologue = [] }))
      ∷ [];
  refs = [];
  inclusive_index = [];
}

abbrev expected : List ConflictInfo
expected = record { path = "/body"; ancestor = 1; sides = [] } ∷ []

listed : list_conflicts memory.objects 3 divided 3 ≡ ok expected
unfolding list_conflicts collect_conflicts path_attribute try_collect_stream subtree subtree_walk
    walk fetch Memory.get lookup insert
listed = refl

has_conflicts-list_conflicts_example :
    has_conflicts memory.objects 3 divided 3 ≡ ok (any_listed expected)
has_conflicts-list_conflicts_example =
    has_conflicts-list_conflicts memory.objects 3 divided 3 expected listed
