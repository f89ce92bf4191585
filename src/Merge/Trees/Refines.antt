-- ===== src/Merge/Trees/Refines.antt =====
-- The merged tree is the three-way merge of the document at each path.
use clayers.Prelude.{
  String, ◌≡◌, refl, sym, ap, ◌∙◌, inl, inr, true, false, Option, none, some, List, [], ◌∷◌,
  contains, distinct, add_all, contains-add_all, distinct-add_all, Option-cases, ==_refl, string_eq,
  nat_eq, option_eq, arith, Bool-cases,
}
use clayers.Prelude.Dict.{Dict, lookup, keys, contains-keys}
use clayers.Error.{ContentHash, ok}
use clayers.Object.{Object, tree, TreeObject}
use clayers.Object.Tree
use clayers.Object.Tree.{find_entry}
use clayers.Object.Tree.Sorted.{get-new}
use clayers.Action.{lift, >>=-eq-ok}
use clayers.Store.Lawful.{Backend, IsLawful}
use clayers.Merge.ThreeWay.{three_way}
use clayers.Merge.Policy.{MergePolicy, MergeResult}
use clayers.Merge.Trees.{
  Documents, Sides, Progress, nothing_yet, path_map, merge_paths, all_paths, merge_trees, result_of,
}
use clayers.Merge.Trees.Steps.{document_of, divergence_paths, reported}
use clayers.Merge.Trees.Loop.{merge_paths-Looped}

-- How a successful merge of trees came about: the loop, the hash of the merged tree, and the write.
pub record Merged {S : Type 0} (b : Backend S) (docs : Documents S) (policy : MergePolicy S)
    (sides : Sides) (a o t : TreeObject) (s : S) (result : MergeResult) (final : S) : Type 0 where
  pub done : Progress
  pub before : S
  pub looped :
      (merge_paths b docs policy sides
        (path_map a)
        (path_map o)
        (path_map t)
        (all_paths b docs a o t)
        nothing_yet
        s).0
      ≡ ok done
  pub hashed : docs.hash_tree (Tree.new done.entries) ≡ ok result.tree
  pub wrote : (b.write_batch ((result.tree, tree (Tree.new done.entries)) ∷ []) before).0 ≡ ok tt
  pub state : final ≡ (b.write_batch ((result.tree, tree (Tree.new done.entries)) ∷ []) before).1
  pub gives : result ≡ result_of result.tree done

ok_inj : {A : Type 0} {x y : A} → ok x ≡ ok y → x ≡ y
ok_inj e = cc

module _ {S : Type 0} (b : Backend S) (docs : Documents S) (policy : MergePolicy S)
    (sides : Sides) where
  merge_trees-Merged :
      (a o t : TreeObject) (s : S) (result : MergeResult)
      → (merge_trees b docs a o t policy sides s).0 ≡ ok result
      → Merged b docs policy sides a o t s result (merge_trees b docs a o t policy sides s).1
  unfolding merge_trees
  merge_trees-Merged a o t s result e =
      let (done, p, e₁, st₁) =
        >>=-eq-ok
          (merge_paths b docs policy sides (path_map a) (path_map o) (path_map t)
            (all_paths b docs a o t) nothing_yet)
          _ s e in
      let (h, q, e₂, st₂) = >>=-eq-ok (lift (docs.hash_tree (Tree.new done.entries))) _ _ e₁ in
      let (u, w, e₃, st₃) =
        >>=-eq-ok (b.write_batch ((h, tree (Tree.new done.entries)) ∷ [])) _ _ e₂ in
      let same : result_of h done ≡ result = ok_inj e₃ in
      rw (← same) (record {
        done = done;
        before = _;
        looped = p;
        hashed = q;
        wrote = w;
        state = st₁ ∙ st₂ ∙ st₃;
        gives = refl;
      })

  -- A path that the loop does not visit is in none of the trees.
  unvisited :
      ((ps : List String) (p : String) → contains (docs.iterate ps) p ≡ contains ps p)
      → (a o t : TreeObject) (p : String) → contains (all_paths b docs a o t) p ≡ false
      → (lookup p (path_map a) ≡ none)
        × (lookup p (path_map o) ≡ none)
        × (lookup p (path_map t) ≡ none)
  unvisited all a o t p n =
      let ks =
        add_all (add_all (add_all [] (keys (path_map a))) (keys (path_map o)))
          (keys (path_map t)) in
      let visits = all ks p in
      let third =
        contains-add_all (add_all (add_all [] (keys (path_map a))) (keys (path_map o)))
          (keys (path_map t)) p in
      let second = contains-add_all (add_all [] (keys (path_map a))) (keys (path_map o)) p in
      let first = contains-add_all [] (keys (path_map a)) p in
      (
        missing (path_map a) p (ground arith),
        missing (path_map o) p (ground arith),
        missing (path_map t) p (ground arith),
      )
    where
      missing :
          (d : Dict String ContentHash) (q : String)
          → contains (keys d) q ≡ false
          → lookup q d ≡ none
      missing d q n = elim (Option-cases (lookup q d)) [
        | inl gone ↦ gone
        | inr (h, there) ↦ ground (arith, contains-keys d q, there, n)
      ]

  -- Over a store that meets the laws and can be read, with the paths iterated each once and
  -- completely: if `merge_trees` succeeds, the store has the merged tree at the hash that the result
  -- names; at every path whose three documents have a three-way merge, and that is not the path of a
  -- new divergence document, the merged tree has what they merge to; and every path where they
  -- conflict is reported, as merged by the strategy or as a conflict.
  pub merge_trees_refines :
      IsLawful b
      → ((st : S) (h : ContentHash) → (x : Option Object) × (b.get st h ≡ ok x))
      → ((ps : List String) → distinct ps ≡ true → distinct (docs.iterate ps) ≡ true)
      → ((ps : List String) (p : String) → contains (docs.iterate ps) p ≡ contains ps p)
      → (a o t : TreeObject) (s : S) (result : MergeResult)
      → (merge_trees b docs a o t policy sides s).0 ≡ ok result
      → (merged : TreeObject) × (b.get (merge_trees b docs a o t policy sides s).1 result.tree
          ≡ ok (some (tree merged)))
        × ((p : String) (r : Option ContentHash)
            → three_way (lookup p (path_map a)) (lookup p (path_map o)) (lookup p (path_map t))
              ≡ some r
            → contains (divergence_paths result.conflicts) p ≡ false
            → document_of (Tree.get merged p) ≡ r)
        × ((p : String)
            → three_way (lookup p (path_map a)) (lookup p (path_map o)) (lookup p (path_map t))
              ≡ none
            → reported result.auto_merged result.conflicts p ≡ true)
  unfolding Tree.get find_entry
  merge_trees_refines law readable once all a o t s result e =
      let m = merge_trees-Merged a o t s result e in
      let paths = all_paths b docs a o t in
      let done = m.done in
      let each = once _ (
        distinct-add_all _ (keys (path_map t)) (
          distinct-add_all _ (keys (path_map o)) (distinct-add_all [] (keys (path_map a)) refl))) in
      let loop =
        merge_paths-Looped b docs policy sides (path_map a) (path_map o) (path_map t) paths
          nothing_yet done s each m.looped in
      let conflicts : result.conflicts ≡ done.conflicts = ap (λ r. r.conflicts) m.gives in
      let auto_merged : result.auto_merged ≡ done.auto_merged = ap (λ r. r.auto_merged) m.gives in
      let (old, g) = readable m.before result.tree in
      let put =
        law.get-write_batch ((result.tree, tree (Tree.new done.entries)) ∷ []) m.before result.tree
          old m.wrote g in
      (
        Tree.new done.entries,
        ap (λ f. b.get f result.tree) m.state ∙ put ∙ ground (arith, ==_refl result.tree),
        λ p r is_r off.
            let no_divergence = ap (λ l. contains (divergence_paths l) p) (sym conflicts) ∙ off in
            elim (Bool-cases (contains paths p)) [
              | inl i ↦
                  ap document_of (get-new done.entries p)
                  ∙ loop.settled p r i is_r no_divergence refl
              | inr n ↦
                  let (no_a, no_o, no_t) = unvisited all a o t p n in
                  ap document_of (get-new done.entries p ∙ loop.others p n no_divergence)
                  ∙ ground (arith, is_r, no_a, no_o, no_t)
            ],
        λ p is_none.
            rw (conflicts, auto_merged)
              (elim (Bool-cases (contains paths p)) [
                | inl i ↦ loop.told p i is_none
                | inr n ↦
                    let (no_a, no_o, no_t) = unvisited all a o t p n in
                    ground (arith, is_none, no_a, no_o, no_t)
              ]),
      )
