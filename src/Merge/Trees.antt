-- ===== src/Merge/Trees.antt =====
-- The file-level merge: `merge_trees` and `resolve_file_conflict`
-- (crates/clayers-repo/src/merge.rs).
pub mod Steps
pub mod Turns
pub mod Loop
pub mod Refines
use clayers.Prelude.{
  ℕ, String, ◌<>◌, Bool, true, false, Option, none, some, List, [], ◌∷◌, ◌++◌, ◌==◌, string_eq,
  nat_eq, if◌then◌else◌, add_all,
}
use clayers.Prelude.Dict.{Dict, lookup, collect, keys}
use clayers.Error.{ContentHash, Result}
use clayers.Object.{Object, tree, TreeEntry, TreeObject}
use clayers.Object.Tree
use clayers.Action.{Action, pure, reading, lift, ◌>>=◌, ◌>>◌}
use clayers.Store.Lawful.{Backend}
use clayers.Merge.Policy.{
  FileConflict, MergeResult, divergence_prefix, Resolution, resolved, divergence, MergeConflict,
  MergePolicy, strategy_for,
}

-- What merging uses of the conversion between documents and objects (export.rs and import.rs, over
-- the XML library) and of the hashes.
pub record Documents (S : Type 0) : Type 0 where
  pub export_xml : S → ContentHash → Result String
  pub import_xml : String → Action S ContentHash
  pub generate_divergence_xml :
      String → ContentHash → String → List (ContentHash × String × String) → String
  -- `hash_exclusive(&tree.to_xml())`
  pub hash_tree : TreeObject → Result ContentHash
  -- The first eight bytes, in hexadecimal, of the hash of these hashes.
  pub short_hash : List ContentHash → String
  -- The order in which a `HashSet` of these paths is iterated.
  pub iterate : List String → List String

-- The commits and refs that a divergence document names.
pub record Sides : Type 0 where
  pub ours_ref : String
  pub theirs_ref : String
  pub ours_commit : ContentHash
  pub theirs_commit : ContentHash
  pub ancestor_commit : ContentHash

-- The vectors that the loop fills.
pub record Progress : Type 0 where
  pub entries : List TreeEntry
  pub auto_merged : List String
  pub conflicts : List FileConflict
  pub ours_only : List String
  pub theirs_only : List String

abbrev pub nothing_yet : Progress
nothing_yet = record {
  entries = [];
  auto_merged = [];
  conflicts = [];
  ours_only = [];
  theirs_only = [];
}

abbrev pub entry : String → ContentHash → TreeEntry
entry p h = record { path = p; document = h }

-- What the `match (a, o, t)` of the loop says about one path.
pub data FileVerdict : Type 0 where
  -- An entry, and the list that names the path.
  same ours_changed theirs_changed both_added : ContentHash → FileVerdict
  ours_dropped theirs_dropped absent : FileVerdict
  -- The ancestor, the two sides, who deleted the file, and the description.
  conflicting : Option ContentHash → ContentHash → ContentHash → Bool → Bool → String → FileVerdict

unfoldable pub judge_file :
    Option ContentHash → Option ContentHash → Option ContentHash → FileVerdict
judge_file (some ah) (some oh) (some th) =
    if oh == th
    then same oh
    else if th == ah
    then ours_changed oh
    else if oh == ah
    then theirs_changed th
    else conflicting (some ah) oh th false false "both sides modified"
judge_file none (some oh) none = ours_changed oh
judge_file none none (some th) = theirs_changed th
judge_file none (some oh) (some th) =
    if oh == th
    then both_added oh
    else conflicting none oh th false false "both sides added with different content"
judge_file (some ah) none (some th) =
    if th == ah
    then ours_dropped
    else conflicting (some ah) ah th true false "deleted on ours, modified on theirs"
judge_file (some ah) (some oh) none =
    if oh == ah
    then theirs_dropped
    else conflicting (some ah) oh ah false true "modified on ours, deleted on theirs"
judge_file (some ah) none none = absent
judge_file none none none = absent

-- `HashMap` from the paths to the documents.
abbrev pub path_pairs : List TreeEntry → List (String × ContentHash)
path_pairs [] = []
path_pairs (e ∷ es) = (e.path, e.document) ∷ path_pairs es

unfoldable pub path_map : TreeObject → Dict String ContentHash
path_map t = collect [] (path_pairs t.entries)

-- Ending the two branches of `resolve_file_conflict`.
abbrev pub with_resolved : String → ContentHash → Progress → Progress
with_resolved path h progress = record {
  entries = progress.entries ++ entry path h ∷ [];
  auto_merged = progress.auto_merged ++ path ∷ [];
  conflicts = progress.conflicts;
  ours_only = progress.ours_only;
  theirs_only = progress.theirs_only;
}

abbrev pub with_divergence :
    String → ContentHash → String → ContentHash → String → Progress → Progress
with_divergence path ours div_path div_hash description progress = record {
  entries = (progress.entries ++ entry path ours ∷ []) ++ entry div_path div_hash ∷ [];
  auto_merged = progress.auto_merged;
  conflicts =
      progress.conflicts
      ++ record { path = path; divergence_path = div_path; description = description } ∷ [];
  ours_only = progress.ours_only;
  theirs_only = progress.theirs_only;
}

abbrev pub result_of : ContentHash → Progress → MergeResult
result_of tree_hash done = record {
  tree = tree_hash;
  auto_merged = done.auto_merged;
  conflicts = done.conflicts;
  ours_only = done.ours_only;
  theirs_only = done.theirs_only;
}

module _ {S : Type 0} (b : Backend S) (docs : Documents S) where
  abbrev optional : Option ContentHash → List ContentHash
  optional none = []
  optional (some h) = h ∷ []

  unfoldable pub divergence_entry_path :
      String → Option ContentHash → ContentHash → ContentHash → String
  divergence_entry_path path ancestor ours theirs =
      divergence_prefix <> path <> "." <> docs.short_hash (optional ancestor ++ ours ∷ theirs ∷ [])

  abbrev ancestor_document : Option ContentHash → Action S String
  ancestor_document none = pure "<empty/>"
  ancestor_document (some a) = reading (λ s. docs.export_xml s a)

  unfoldable pub generate_divergence_doc :
      String → Option ContentHash → ContentHash → ContentHash → Sides → Action S ContentHash
  generate_divergence_doc path ancestor ours theirs sides = do
    ancestor_xml ← ancestor_document ancestor
    ours_xml ← reading (λ s. docs.export_xml s ours)
    theirs_xml ← reading (λ s. docs.export_xml s theirs)
    docs.import_xml (
        "<?xml version=\"1.0\" encoding=\"UTF-8\"?>\n"
        <> docs.generate_divergence_xml path sides.ancestor_commit ancestor_xml (
            (sides.ours_commit, sides.ours_ref, ours_xml)
            ∷ (sides.theirs_commit, sides.theirs_ref, theirs_xml)
            ∷ []))

  -- The `match` on the strategy's answer.
  unfoldable pub settle : MergeConflict → Sides → String → Progress → Resolution → Action S Progress
  settle mc sides description progress (resolved h) = pure (with_resolved mc.path h progress)
  settle mc sides description progress divergence = do
    div_hash ← generate_divergence_doc mc.path mc.ancestor mc.ours mc.theirs sides
    pure (
        with_divergence mc.path mc.ours
          (divergence_entry_path mc.path mc.ancestor mc.ours mc.theirs) div_hash description
          progress)

  unfoldable pub resolve_file_conflict :
      MergePolicy S → Sides → MergeConflict → String → Progress → Action S Progress
  resolve_file_conflict policy sides mc description progress = do
    resolution ← strategy_for policy mc.path mc
    settle mc sides description progress resolution

  -- The arms of the `match (a, o, t)`.
  unfoldable pub record_verdict :
      MergePolicy S → Sides → String → FileVerdict → Progress → Action S Progress
  record_verdict policy sides path (same h) progress =
      pure (record progress { entries = progress.entries ++ entry path h ∷ [] })
  record_verdict policy sides path (ours_changed h) progress = pure (record progress {
    entries = progress.entries ++ entry path h ∷ [];
    ours_only = progress.ours_only ++ path ∷ [];
  })
  record_verdict policy sides path (theirs_changed h) progress = pure (record progress {
    entries = progress.entries ++ entry path h ∷ [];
    theirs_only = progress.theirs_only ++ path ∷ [];
  })
  record_verdict policy sides path (both_added h) progress = pure (with_resolved path h progress)
  record_verdict policy sides path ours_dropped progress =
      pure (record progress { ours_only = progress.ours_only ++ path ∷ [] })
  record_verdict policy sides path theirs_dropped progress =
      pure (record progress { theirs_only = progress.theirs_only ++ path ∷ [] })
  record_verdict policy sides path absent progress = pure progress
  record_verdict policy sides path (conflicting a o t ours_deleted theirs_deleted description)
        progress =
      resolve_file_conflict policy sides
        (record {
          path = path;
          ancestor = a;
          ours = o;
          theirs = t;
          ours_ref = sides.ours_ref;
          theirs_ref = sides.theirs_ref;
          ours_deleted = ours_deleted;
          theirs_deleted = theirs_deleted;
        })
        description progress

  -- The loop over the paths.
  unfoldable pub merge_paths :
      MergePolicy S
      → Sides
      → Dict String ContentHash
      → Dict String ContentHash
      → Dict String ContentHash
      → List String
      → Progress
      → Action S Progress
  merge_paths policy sides anc ours theirs [] progress = pure progress
  merge_paths policy sides anc ours theirs (path ∷ paths) progress = do
    next ←
        record_verdict policy sides path
          (judge_file (lookup path anc) (lookup path ours) (lookup path theirs)) progress
    merge_paths policy sides anc ours theirs paths next

  abbrev pub all_paths : TreeObject → TreeObject → TreeObject → List String
  all_paths a o t =
      docs.iterate
        (add_all (add_all (add_all [] (keys (path_map a))) (keys (path_map o))) (keys (path_map t)))

  unfoldable pub merge_trees :
      TreeObject → TreeObject → TreeObject → MergePolicy S → Sides → Action S MergeResult
  merge_trees ancestor_tree ours_tree theirs_tree policy sides = do
    done ←
        merge_paths policy sides (path_map ancestor_tree) (path_map ours_tree)
          (path_map theirs_tree) (all_paths ancestor_tree ours_tree theirs_tree) nothing_yet
    tree_hash ← lift (docs.hash_tree (Tree.new done.entries))
    b.write_batch ((tree_hash, tree (Tree.new done.entries)) ∷ [])
    pure (result_of tree_hash done)
