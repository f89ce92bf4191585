-- ===== src/Repo.antt =====
-- The repository facade (crates/clayers-repo/src/repo.rs) over one store. The clock's reading is an
-- argument of the operations that read it.
pub mod Commit
pub mod Outcomes
use clayers.Prelude.{
  ℕ, String, ◌<>◌, Option, none, some, List, [], ◌∷◌, ◌==◌, nat_eq, if◌then◌else◌,
}
use clayers.Error.{ContentHash, Error, ref, invalid_object, Result, ok, err, ok_or, ◌>>=◌ as ◌then◌}
use clayers.Object.{
  Object, commit, tag, tree, Author, CommitObject, TagObject, TreeEntry, TreeObject,
}
use clayers.Object.Tree
use clayers.Action.{Action, pure, raise, reading, lift, ◌>>=◌, ◌>>◌}
use clayers.Store.{fetch}
use clayers.Store.Lawful.{Backend}
use clayers.Graph.{common_ancestor, walk_history}
use clayers.Diff.Trees.{FileChange}
use clayers.Diff.Trees
use clayers.Merge.Policy.{MergePolicy, MergeResult}
use clayers.Merge.Trees.{Documents, Sides, entry, merge_trees}
use clayers.Refs

pub data MergeOutcome : Type 0 where
  fast_forward : ContentHash → MergeOutcome
  merged : ContentHash → MergeResult → MergeOutcome
  up_to_date no_common_ancestor : MergeOutcome

abbrev pub entries_of : List (String × ContentHash) → List TreeEntry
entries_of [] = []
entries_of ((p, h) ∷ ps) = entry p h ∷ entries_of ps

abbrev pub parents : Option ContentHash → List ContentHash
parents none = []
parents (some tip) = tip ∷ []

abbrev expect_commit : Object → Result CommitObject
expect_commit (commit c) = ok c
expect_commit o = err (invalid_object "expected Commit")

abbrev expect_tree : String → Object → Result TreeObject
expect_tree message (tree t) = ok t
expect_tree message o = err (invalid_object message)

-- `hash_object` is `hash::hash_exclusive` of `to_xml` of a tree, commit or tag.
module _ {S : Type 0} (b : Backend S) (hash_object : Object → Result ContentHash) where
  unfoldable pub store_object : Object → Action S ContentHash
  store_object o = do h ← lift (hash_object o); b.write_batch ((h, o) ∷ []); pure h

  unfoldable pub build_tree : List (String × ContentHash) → Action S ContentHash
  build_tree entries = store_object (tree (Tree.new (entries_of entries)))

  -- The object, the branch and HEAD, as `commit` and `merge` both write them.
  unfoldable pub record_commit : String → CommitObject → Action S ContentHash
  record_commit branch c = do
    h ← store_object (commit c)
    b.set_ref (Refs.branch_ref branch) h
    Refs.set_head b.refs h
    pure h

  unfoldable pub commit_tree : String → ContentHash → Author → String → ℕ → Action S ContentHash
  commit_tree branch root author message now = do
    tip ← reading (λ s. Refs.get_branch b.refs s branch)
    record_commit branch (record {
      tree = root;
      parents = parents tip;
      author = author;
      timestamp = now;
      message = message;
    })

  unfoldable pub create_branch : String → ContentHash → Action S (Unit {0})
  create_branch name target = b.set_ref (Refs.branch_ref name) target

  unfoldable pub delete_branch : String → Action S (Unit {0})
  delete_branch name = b.delete_ref (Refs.branch_ref name)

  unfoldable pub create_tag : String → ContentHash → Author → String → ℕ → Action S (Unit {0})
  create_tag name target tagger message now = do
    h ← store_object (
        tag (record {
          target = target;
          name = name;
          tagger = tagger;
          timestamp = now;
          message = message;
        }))
    b.set_ref (Refs.tag_ref name) h

  unfoldable pub load_tree : S → String → ContentHash → Result TreeObject
  load_tree s message h = fetch (b.get s) h then expect_tree message

  unfoldable pub diff_trees : S → ContentHash → ContentHash → Result (List FileChange)
  diff_trees s x y = fetch (b.get s) x then λ obj_a. fetch (b.get s) y then λ obj_b.
      expect_tree "expected Tree object" obj_a then λ ta.
      expect_tree "expected Tree object" obj_b then λ tb. ok (Trees.diff_trees ta tb)

  unfoldable pub load_tree_from_commit : S → ContentHash → Result TreeObject
  load_tree_from_commit s h =
      fetch (b.get s) h then λ obj. expect_commit obj then λ c. load_tree s "expected Tree" c.tree

  module _ (docs : Documents S) (fuel : S → ℕ) where
    -- The merge proper, once the commits are known not to be ancestors of each other.
    unfoldable pub merge_commits :
        String
        → String
        → Author
        → String
        → MergePolicy S
        → ℕ
        → ContentHash
        → ContentHash
        → ContentHash
        → Action S MergeOutcome
    merge_commits current_branch target_branch author message policy now ours theirs ancestor = do
      ours_tree ← reading (λ s. load_tree_from_commit s ours)
      theirs_tree ← reading (λ s. load_tree_from_commit s theirs)
      ancestor_tree ← reading (λ s. load_tree_from_commit s ancestor)
      result ← merge_trees b docs ancestor_tree ours_tree theirs_tree policy (record {
        ours_ref = Refs.branch_ref current_branch;
        theirs_ref = Refs.branch_ref target_branch;
        ours_commit = ours;
        theirs_commit = theirs;
        ancestor_commit = ancestor;
      })
      h ← record_commit current_branch (record {
        tree = result.tree;
        parents = ours ∷ theirs ∷ [];
        author = author;
        timestamp = now;
        message = message;
      })
      pure (merged h result)

    unfoldable pub forward : String → ContentHash → Action S MergeOutcome
    forward current_branch theirs = do
      b.set_ref (Refs.branch_ref current_branch) theirs
      Refs.set_head b.refs theirs
      pure (fast_forward theirs)

    -- What follows the search for the common ancestor.
    unfoldable pub merge_from :
        String
        → String
        → Author
        → String
        → MergePolicy S
        → ℕ
        → ContentHash
        → ContentHash
        → Option ContentHash
        → Action S MergeOutcome
    merge_from current_branch target_branch author message policy now ours theirs none =
        pure no_common_ancestor
    merge_from current_branch target_branch author message policy now ours theirs (some ancestor) =
        if ancestor == ours
        then forward current_branch theirs
        else if ancestor == theirs
        then pure up_to_date
        else merge_commits current_branch target_branch author message policy now ours theirs
            ancestor

    unfoldable pub merge_tips :
        String
        → String
        → Author
        → String
        → MergePolicy S
        → ℕ
        → ContentHash
        → ContentHash
        → Action S MergeOutcome
    merge_tips current_branch target_branch author message policy now ours theirs =
        if ours == theirs then pure up_to_date else do
          ancestor ← reading (λ s. common_ancestor (b.get s) (fuel s) ours theirs)
          merge_from current_branch target_branch author message policy now ours theirs ancestor

    unfoldable pub merge :
        String → String → Author → String → MergePolicy S → ℕ → Action S MergeOutcome
    merge current_branch target_branch author message policy now = do
      our_tip ← reading (λ s. Refs.get_branch b.refs s current_branch)
      ours ← lift (ok_or (ref ("branch '" <> current_branch <> "' has no commits")) our_tip)
      their_tip ← reading (λ s. Refs.get_branch b.refs s target_branch)
      theirs ← lift (ok_or (ref ("branch '" <> target_branch <> "' not found")) their_tip)
      merge_tips current_branch target_branch author message policy now ours theirs
