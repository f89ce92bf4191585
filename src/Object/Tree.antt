-- ===== src/Object/Tree.antt =====
-- `TreeObject::new`, `get` and `paths` (crates/clayers-repo/src/object.rs).
pub mod Sorted
use clayers.Prelude.{String, Option, none, some, List, [], ◌∷◌, ◌==◌, string_eq, if◌then◌else◌}
use clayers.Prelude.PathOrder.{path_le}
use clayers.Object.{TreeEntry, TreeObject, paths_of}

-- One insertion of a stable sort: the entry goes before the first one whose path is not smaller.
pub insert_entry : TreeEntry → List TreeEntry → List TreeEntry
insert_entry e [] = e ∷ []
insert_entry e (f ∷ es) = if path_le e.path f.path then e ∷ f ∷ es else f ∷ insert_entry e es

-- `sort_by(|a, b| a.path.cmp(&b.path))`, which is stable.
pub sort_entries : List TreeEntry → List TreeEntry
sort_entries [] = []
sort_entries (e ∷ es) = insert_entry e (sort_entries es)

-- `TreeObject::new`
unfoldable pub new : List TreeEntry → TreeObject
new es = record { entries = sort_entries es }

-- `iter().find(|e| e.path == path)`
unfoldable pub find_entry : String → List TreeEntry → Option TreeEntry
find_entry p [] = none
find_entry p (e ∷ es) = if e.path == p then some e else find_entry p es

-- `TreeObject::get`
unfoldable pub get : TreeObject → String → Option TreeEntry
get t p = find_entry p t.entries

-- `TreeObject::paths`
unfoldable pub paths : TreeObject → List String
paths t = paths_of t.entries
