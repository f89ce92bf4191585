-- ===== src/Diff/Trees.antt =====
-- `diff_trees` (crates/clayers-repo/src/diff.rs).
pub mod Exact
use clayers.Prelude.{
  String, Bool, true, false, Option, none, some, List, [], ◌∷◌, ◌++◌, contains, ◌==◌, string_eq,
  nat_eq, if◌then◌else◌,
}
use clayers.Error.{ContentHash}
use clayers.Object.{TreeEntry, TreeObject, paths_of}
use clayers.Object.Tree.{find_entry}

pub data FileChange : Type 0 where
  added : String → ContentHash → FileChange
  removed : String → ContentHash → FileChange
  modified : String → ContentHash → ContentHash → FileChange

-- What the first loop pushes for one entry, given the other tree's entry at its path.
abbrev pub change_of : TreeEntry → Option TreeEntry → List FileChange
change_of e (some f) =
    if e.document == f.document then [] else modified e.path e.document f.document ∷ []
change_of e none = removed e.path e.document ∷ []

-- The first loop: removed or modified.
unfoldable pub removed_or_modified : List TreeEntry → List TreeEntry → List FileChange
removed_or_modified [] others = []
removed_or_modified (e ∷ es) others =
    change_of e (find_entry e.path others) ++ removed_or_modified es others

-- The second loop: added.
unfoldable pub added_entries : List String → List TreeEntry → List FileChange
added_entries paths_a [] = []
added_entries paths_a (e ∷ es) =
    let rest = added_entries paths_a es in
    if contains paths_a e.path then rest else added e.path e.document ∷ rest

unfoldable pub diff_trees : TreeObject → TreeObject → List FileChange
diff_trees a b =
    removed_or_modified a.entries b.entries ++ added_entries (paths_of a.entries) b.entries
