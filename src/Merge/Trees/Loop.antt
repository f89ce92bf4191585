-- ===== src/Merge/Trees/Loop.antt =====
-- The loop of `merge_trees` as a whole.
use clayers.Prelude.{
  String, ◌≡◌, refl, sym, ap, ◌∙◌, inl, inr, Bool, true, false, Option, none, some, List, [], ◌∷◌,
  contains, distinct, ◌==◌, ==_iff, string_eq, nat_eq, option_eq, arith, Bool-cases,
}
use clayers.Prelude.Dict.{Dict, lookup}
use clayers.Error.{ContentHash, ok}
use clayers.Object.Tree.{find_entry}
use clayers.Action.{>>=-eq-ok}
use clayers.Store.Lawful.{Backend}
use clayers.Merge.ThreeWay.{three_way}
use clayers.Merge.Policy.{MergePolicy}
use clayers.Merge.Trees.{Documents, Sides, Progress, judge_file, record_verdict, merge_paths}
use clayers.Merge.Trees.Steps.{
  document_of, divergence_paths, reported, verdict_document, judge_file-three_way, Step,
}
use clayers.Merge.Trees.Turns.{record_verdict-Step}

module _ {S : Type 0} (b : Backend S) (docs : Documents S) (policy : MergePolicy S)
    (sides : Sides) where
  module _ (anc ours theirs : Dict String ContentHash) where
    abbrev three_documents : String → Option (Option ContentHash)
    three_documents p = three_way (lookup p anc) (lookup p ours) (lookup p theirs)

    -- The loop as a whole.
    pub record Looped (paths : List String) (old new : Progress) : Type 0 where
      pub others :
          (p : String)
          → contains paths p ≡ false
          → contains (divergence_paths new.conflicts) p ≡ false
          → find_entry p new.entries ≡ find_entry p old.entries
      pub settled :
          (p : String) (r : Option ContentHash)
          → contains paths p ≡ true
          → three_documents p ≡ some r
          → contains (divergence_paths new.conflicts) p ≡ false
          → find_entry p old.entries ≡ none
          → document_of (find_entry p new.entries) ≡ r
      pub told :
          (p : String)
          → contains paths p ≡ true
          → three_documents p ≡ none
          → reported new.auto_merged new.conflicts p ≡ true
      pub keeps_divergence :
          (p : String)
          → contains (divergence_paths old.conflicts) p ≡ true
          → contains (divergence_paths new.conflicts) p ≡ true
      pub keeps_report :
          (p : String)
          → reported old.auto_merged old.conflicts p ≡ true
          → reported new.auto_merged new.conflicts p ≡ true

    -- What is no divergence path at the end was none before.
    earlier : {x y : Bool} → (x ≡ true → y ≡ true) → y ≡ false → x ≡ false
    earlier {x = true} h n = sym (h refl) ∙ n
    earlier {x = false} h n = refl

    turn-Looped :
        (path : String) (paths : List String) (old next new : Progress)
        → distinct (path ∷ paths) ≡ true
        → Step path (judge_file (lookup path anc) (lookup path ours) (lookup path theirs)) old next
        → Looped paths next new
        → Looped (path ∷ paths) old new
    turn-Looped path paths old next new d turn rest =
        let v = judge_file (lookup path anc) (lookup path ours) (lookup path theirs) in
        let spec : verdict_document v ≡ three_documents path =
          judge_file-three_way (lookup path anc) (lookup path ours) (lookup path theirs) in
        record {
          others = λ p n m.
              rest.others p (ground (arith, n)) m
              ∙ turn.others p (ground (arith, n, ==_iff path p))
                  (earlier (rest.keeps_divergence p) m);
          settled = λ p r i e m gone. elim (Bool-cases (path == p)) [
            | inl is_path ↦
                let at : path ≡ p = (==_iff path p).0 is_path in
                let same_r : verdict_document v ≡ some r = spec ∙ ap three_documents at ∙ e in
                let off : contains paths p ≡ false = ground (arith, at, d) in
                ap document_of (rest.others p off m)
                ∙ rw (← at) (
                    turn.settled r same_r (rw at (earlier (rest.keeps_divergence p) m))
                      (rw at gone))
            | inr other ↦ rest.settled p r (ground (arith, i, other)) e m (
                turn.others p (ground (arith, other, ==_iff path p))
                  (earlier (rest.keeps_divergence p) m)
                ∙ gone)
          ];
          told = λ p i e. elim (Bool-cases (path == p)) [
            | inl is_path ↦
                let at : path ≡ p = (==_iff path p).0 is_path in
                rest.keeps_report p (rw (← at) (turn.told (spec ∙ ap three_documents at ∙ e)))
            | inr other ↦ rest.told p (ground (arith, i, other)) e
          ];
          keeps_divergence = λ p m. rest.keeps_divergence p (turn.keeps_divergence p m);
          keeps_report = λ p m. rest.keeps_report p (turn.keeps_report p m);
        }

    pub merge_paths-Looped :
        (paths : List String) (old new : Progress) (s : S)
        → distinct paths ≡ true
        → (merge_paths b docs policy sides anc ours theirs paths old s).0 ≡ ok new
        → Looped paths old new
    unfolding merge_paths
    merge_paths-Looped [] old new s d e =
        let same : old ≡ new = ground (arith, e) in
        rw (← same) (record {
          others = λ p n m. refl;
          settled = λ p r i. cc;
          told = λ p i. cc;
          keeps_divergence = λ p m. m;
          keeps_report = λ p m. m;
        })
    merge_paths-Looped (path ∷ paths) old new s d e =
        let v = judge_file (lookup path anc) (lookup path ours) (lookup path theirs) in
        let (next, one, e', st) =
          >>=-eq-ok (record_verdict b docs policy sides path v old)
            (merge_paths b docs policy sides anc ours theirs paths) s e in
        turn-Looped path paths old next new d
          (record_verdict-Step b docs policy sides path v old next s one)
          (merge_paths-Looped paths next new _ (ground (arith, d)) e')
