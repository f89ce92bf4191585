-- ===== src/Examples/Merging.antt =====
-- Merges and comparisons of small trees and attribute lists.
use clayers.Prelude.{
  ◌≡◌, refl, String, Option, none, some, List, [], ◌∷◌, contains, nat_eq, string_eq, option_eq,
  true, false,
}
use clayers.Prelude.Dict.{lookup, insert, collect}
use clayers.Error.{ContentHash, ok}
use clayers.Object.{tree, TreeEntry, TreeObject, Attribute}
use clayers.Object.Tree
use clayers.Store.Memory
use clayers.Store.Memory.{MemoryStore}
use clayers.Store.Memory.Backend.{memory, memory-IsLawful}
use clayers.Merge.ThreeWay.{three_way}
use clayers.Merge.Attributes.{Key, merge_attributes}
use clayers.Merge.Attributes.Values.{value_of}
use clayers.Merge.Attributes.Refines.{merge_attributes_refines}
use clayers.Merge.Policy.{MergePolicy, MergeResult, take_ours, strategy_for, first_override}
use clayers.Merge.Trees.{
  path_map, judge_file, merge_trees, merge_paths, record_verdict, resolve_file_conflict, settle,
}
use clayers.Merge.Trees.Steps.{document_of, reported}
use clayers.Merge.Trees.Refines.{merge_trees_refines}
use clayers.Diff.Trees.{diff_trees}
use clayers.Diff.Trees.Exact.{apply, document_at, apply-diff_trees}
use clayers.Examples.Data.{clone, documents, sides, attribute}

abbrev file : String → ContentHash → TreeEntry
file p h = record { path = p; document = h }

abbrev base : TreeObject
base = record { entries = file "a.xml" 3 ∷ file "b.xml" 3 ∷ file "c.xml" 3 ∷ [] }

abbrev ours : TreeObject
ours = record { entries = file "a.xml" 10 ∷ file "b.xml" 11 ∷ file "c.xml" 3 ∷ [] }

abbrev theirs : TreeObject
theirs = record { entries = file "a.xml" 3 ∷ file "b.xml" 12 ∷ [] }

abbrev policy : MergePolicy MemoryStore
policy = record { default_strategy = take_ours; file_overrides = [] }

abbrev outcome : MergeResult
outcome = record {
  tree = 91;
  auto_merged = "b.xml" ∷ [];
  conflicts = [];
  ours_only = "a.xml" ∷ [];
  theirs_only = "c.xml" ∷ [];
}

merged : (merge_trees memory documents base ours theirs policy sides clone).0 ≡ ok outcome
unfolding merge_trees merge_paths record_verdict resolve_file_conflict settle judge_file path_map
    collect lookup insert strategy_for first_override take_ours Tree.new Memory.write_batch
    Memory.commit Memory.flush Memory.put_each Memory.put
merged = refl

merge_trees_refines_example :
    (result : TreeObject) × (Memory.get
        (merge_trees memory documents base ours theirs policy sides clone).1
        91
      ≡ ok (some (tree result)))
    × ((p : String) (r : Option ContentHash)
        → three_way
            (lookup p (path_map base))
            (lookup p (path_map ours))
            (lookup p (path_map theirs))
          ≡ some r
        → contains [] p ≡ false
        → document_of (Tree.get result p) ≡ r)
    × ((p : String)
        → three_way
            (lookup p (path_map base))
            (lookup p (path_map ours))
            (lookup p (path_map theirs))
          ≡ none
        → reported ("b.xml" ∷ []) [] p ≡ true)
unfolding Memory.get
merge_trees_refines_example =
    merge_trees_refines memory documents policy sides memory-IsLawful
      (λ s h. (lookup h s.objects, refl)) (λ ps d. d) (λ ps p. refl) base ours theirs clone outcome
      merged

abbrev old_attributes : List Attribute
old_attributes = attribute "id" "x" ∷ attribute "kind" "a" ∷ []

abbrev our_attributes : List Attribute
our_attributes = attribute "id" "y" ∷ attribute "kind" "a" ∷ []

abbrev their_attributes : List Attribute
their_attributes = attribute "id" "x" ∷ attribute "note" "n" ∷ []

merge_attributes_refines_example :
    ((merged : List Attribute)
      → merge_attributes old_attributes our_attributes their_attributes ≡ some merged
      → (k : Key)
      → three_way
          (value_of k old_attributes)
          (value_of k our_attributes)
          (value_of k their_attributes)
        ≡ some (value_of k merged))
    × (merge_attributes old_attributes our_attributes their_attributes ≡ none
        → (k : Key) × (three_way
              (value_of k old_attributes)
              (value_of k our_attributes)
              (value_of k their_attributes)
            ≡ none))
merge_attributes_refines_example =
    merge_attributes_refines old_attributes our_attributes their_attributes

apply-diff_trees_example :
    apply (diff_trees base theirs) (document_at base.entries) "b.xml"
    ≡ document_at theirs.entries "b.xml"
apply-diff_trees_example = apply-diff_trees base theirs "b.xml" refl refl
