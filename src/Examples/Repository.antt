-- ===== src/Examples/Repository.antt =====
-- A commit, and a merge of two branches that forked.
use clayers.Prelude.{◌≡◌, refl, some, [], ◌∷◌}
use clayers.Prelude.Dict.{lookup, insert, collect}
use clayers.Error.{ContentHash, Result, ok}
use clayers.Object.{Object, commit}
use clayers.Object.Tree
use clayers.Store.{fetch}
use clayers.Store.Memory
use clayers.Store.Memory.{MemoryStore}
use clayers.Store.Memory.Backend.{memory, memory-IsLawful}
use clayers.Graph.{common_ancestor, rounds, expand, scan, get_commit_parents}
use clayers.Merge.Policy.{MergePolicy, MergeResult, manual, strategy_for, first_override}
use clayers.Merge.Trees.{
  path_map, judge_file, merge_trees, merge_paths, record_verdict, resolve_file_conflict, settle,
}
use clayers.Refs
use clayers.Refs.{branch_ref}
use clayers.Repo.{
  merged, store_object, record_commit, commit_tree, load_tree, load_tree_from_commit, merge_commits,
  forward, merge_from, merge_tips, merge,
}
use clayers.Repo.Commit.{IsRecorded, commit_tree-IsRecorded}
use clayers.Repo.Outcomes.{Explained, merge-Explained}
use clayers.Examples.Data.{author, commit_with, content, clone, documents}

abbrev hash_object : Object → Result ContentHash
hash_object o = ok 20

committed : (commit_tree memory hash_object "main" 4 author "change" 0 clone).0 ≡ ok 20
unfolding commit_tree record_commit store_object branch_ref Refs.get_branch Refs.set_head
    Memory.get_ref Memory.set_ref Memory.write_batch Memory.commit Memory.flush Memory.put_each
    Memory.put
committed = refl

commit_tree-IsRecorded_example :
    IsRecorded memory hash_object "main"
      (commit_with (6 ∷ []))
      clone
      20
      (commit_tree memory hash_object "main" 4 author "change" 0 clone).1
unfolding branch_ref Memory.get_ref lookup
commit_tree-IsRecorded_example =
    commit_tree-IsRecorded memory hash_object memory-IsLawful "main" 4 author "change" 0 clone
      (some 6) 20 refl committed

-- Commits 6 and 9 were both made from 5.
abbrev forked : MemoryStore
forked = record {
  objects = (9, commit (commit_with (5 ∷ []))) ∷ content;
  refs = ("refs/heads/main", 6) ∷ ("refs/heads/feature", 9) ∷ [];
  inclusive_index = [];
}

abbrev policy : MergePolicy MemoryStore
policy = record { default_strategy = manual; file_overrides = [] }

abbrev result : MergeResult
result = record { tree = 91; auto_merged = []; conflicts = []; ours_only = []; theirs_only = [] }

joined :
    (merge memory hash_object documents (λ _. 10) "main" "feature" author "join" policy 0 forked).0
    ≡ ok (merged 20 result)
unfolding merge merge_tips merge_from merge_commits forward load_tree_from_commit load_tree
    common_ancestor rounds expand scan get_commit_parents fetch merge_trees merge_paths
    record_verdict resolve_file_conflict settle judge_file path_map collect lookup insert
    strategy_for first_override manual Tree.new record_commit store_object branch_ref
    Refs.get_branch Refs.set_head Memory.get Memory.get_ref Memory.set_ref Memory.write_batch
    Memory.commit Memory.flush Memory.put_each Memory.put
joined = refl

merge-Explained_example :
    Explained memory hash_object documents
      (λ _. 10)
      "main"
      6
      9
      policy
      forked
      (merge memory hash_object documents
        (λ _. 10)
        "main"
        "feature"
        author
        "join"
        policy
        0
        forked).1
      (merged 20 result)
unfolding branch_ref Memory.get_ref lookup
merge-Explained_example =
    merge-Explained memory hash_object documents (λ _. 10) memory-IsLawful "main" "feature" author
      "join" policy 0 6 9 forked (merged 20 result) refl refl joined
