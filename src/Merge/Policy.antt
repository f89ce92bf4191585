-- ===== src/Merge/Policy.antt =====
-- How a file that both sides changed is resolved: the types, the policy and the built-in strategies
-- (crates/clayers-repo/src/merge.rs).
use clayers.Prelude.{
  String, Bool, ◌||◌, Option, none, some, List, [], ◌∷◌, ◌==◌, string_eq, if◌then◌else◌,
  starts_with, ◌-◌, any, filter_by, leb, ◌&&◌,
}
use Prim.Native.String.{len, slice}
use clayers.Error.{ContentHash}
use clayers.Object.{TreeEntry, TreeObject}
use clayers.Action.{Action, pure, ◌>>=◌}

pub record FileConflict : Type 0 where
  pub path : String
  pub divergence_path : String
  pub description : String

pub record MergeResult : Type 0 where
  pub tree : ContentHash
  pub auto_merged : List String
  pub conflicts : List FileConflict
  pub ours_only : List String
  pub theirs_only : List String

abbrev pub divergence_prefix : String
divergence_prefix = ".clayers/divergence/"

abbrev pub is_divergence : TreeEntry → Bool
is_divergence e = starts_with e.path divergence_prefix

unfoldable pub tree_has_divergences : TreeObject → Bool
tree_has_divergences t = any is_divergence t.entries

unfoldable pub list_divergence_entries : TreeObject → List TreeEntry
list_divergence_entries t = filter_by is_divergence t.entries

pub data Resolution : Type 0 where
  resolved : ContentHash → Resolution
  divergence : Resolution

pub record MergeConflict : Type 0 where
  pub path : String
  pub ancestor : Option ContentHash
  pub ours : ContentHash
  pub theirs : ContentHash
  pub ours_ref : String
  pub theirs_ref : String
  pub ours_deleted : Bool
  pub theirs_deleted : Bool

-- `MergeStrategy::resolve`, which may write to the store.
abbrev pub MergeStrategy : Type 0 → Type 0
MergeStrategy S = MergeConflict → Action S Resolution

pub record MergePolicy (S : Type 0) : Type 0 where
  pub default_strategy : MergeStrategy S
  pub file_overrides : List (String × MergeStrategy S)

-- `str::ends_with`, on bytes: what is left of the path from its length less the pattern's on.
abbrev ends_with : String → String → Bool
ends_with path pattern =
    leb (len pattern) (len path) && slice path (len path - len pattern) (len path) == pattern

abbrev merge_outcome : Option ContentHash → Resolution
merge_outcome none = divergence
merge_outcome (some merged) = resolved merged

module _ {S : Type 0} where
  unfoldable pub first_override :
      List (String × MergeStrategy S) → MergeStrategy S → String → MergeStrategy S
  first_override [] strategy path = strategy
  first_override ((pattern, special) ∷ overrides) strategy path =
      if path == pattern || ends_with path pattern
      then special
      else first_override overrides strategy path

  unfoldable pub strategy_for : MergePolicy S → String → MergeStrategy S
  strategy_for policy path = first_override policy.file_overrides policy.default_strategy path

  -- `Ours`, `Theirs` and `Manual`
  unfoldable pub take_ours : MergeStrategy S
  take_ours conflict =
      if conflict.ours_deleted || conflict.theirs_deleted
      then pure divergence
      else pure (resolved conflict.ours)

  unfoldable pub take_theirs : MergeStrategy S
  take_theirs conflict =
      if conflict.ours_deleted || conflict.theirs_deleted
      then pure divergence
      else pure (resolved conflict.theirs)

  unfoldable pub manual : MergeStrategy S
  manual conflict = pure divergence

  -- `AutoMerge`, over `merge_documents`.
  unfoldable pub auto_merge :
      (ContentHash → ContentHash → ContentHash → Action S (Option ContentHash)) → MergeStrategy S
  auto_merge merge_documents conflict =
      if conflict.ours_deleted || conflict.theirs_deleted
      then pure divergence
      else elim conflict.ancestor [
        | none ↦ pure divergence
        | some ancestor ↦ do
          merged ← merge_documents ancestor conflict.ours conflict.theirs
          pure (merge_outcome merged)
      ]
