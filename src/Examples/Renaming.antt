-- ===== src/Examples/Renaming.antt =====
-- An element that was renamed and is otherwise the same.
use clayers.Prelude.{◌≡◌, ◌≢◌, ◌↔◌, refl, [], ◌∷◌, arith}
use clayers.Prelude.Dict.{lookup}
use clayers.Error.{ContentHash, ok}
use clayers.Object.{element, ElementObject}
use clayers.Store.{fetch}
use clayers.Store.Memory
use clayers.Store.Memory.{MemoryStore}
use clayers.Diff.Nodes.{no_changes, diff}
use clayers.Diff.Nodes.Empty.{Kept, Known, diff_empty_iff}
use clayers.Examples.Data.{body, content}

abbrev renamed : ElementObject
renamed = record body { local_name = "chapter" }

abbrev store : MemoryStore
store = record { objects = (12, element renamed) ∷ content; refs = []; inclusive_index = [] }

abbrev two : ContentHash
two = 2

differ : two ≢ 12
differ = ground arith

diff_empty_iff_example : (diff (Memory.get store) 5 2 12 ≡ ok no_changes) ↔ (
    (body.children ≡ renamed.children)
    × Kept body.attributes renamed.attributes
    × Known renamed.attributes body.attributes)
unfolding fetch Memory.get lookup
diff_empty_iff_example = diff_empty_iff (Memory.get store) 4 2 12 body renamed differ refl refl
