-- ===== src/Repo/Outcomes.antt =====
-- What each outcome of `merge` says about the two branches, and what it leaves.
use clayers.Prelude.{
  ℕ, ◌≡◌, refl, ap, ◌∙◌, String, ◌<>◌, ◌||◌, Option, none, some, [], ◌∷◌, ◌==◌, nat_eq, string_eq,
  ==_iff, if◌then◌else◌, arith, Bool-cases, inl, inr,
}
use clayers.Error.{ContentHash, ref, Result, ok, ok_or}
use clayers.Object.{Object, Author, CommitObject, TreeObject}
use clayers.Action.{pure, reading, lift, >>=-eq-ok}
use clayers.Store.Lawful.{Backend, IsLawful}
use clayers.Graph.{common_ancestor}
use clayers.Graph.Rounds.{Ancestor}
use clayers.Graph.Common.{common_ancestor_sound}
use clayers.Graph.Disjoint.{common_ancestor_complete}
use clayers.Store.Subtree.Reach.{here}
use clayers.Merge.Policy.{MergePolicy, MergeResult}
use clayers.Merge.Trees.{Documents, Sides, merge_trees}
use clayers.Refs
use clayers.Refs.{branch_ref, head}
use clayers.Repo.{
  MergeOutcome, fast_forward, merged, up_to_date, no_common_ancestor, record_commit,
  load_tree_from_commit, merge_commits, forward, merge_from, merge_tips, merge,
}
use clayers.Repo.Commit.{IsRecorded, record_commit-IsRecorded}

module _ {S : Type 0} (b : Backend S) (hash_object : Object → Result ContentHash)
    (docs : Documents S) (fuel : S → ℕ) where
  -- An outcome of merging the commit `theirs` into the branch at `ours`, from state `s` to `t`.
  pub data Explained (branch : String) (ours theirs : ContentHash) (policy : MergePolicy S)
      (s t : S) : MergeOutcome → Type 0 where
    -- Theirs is already in ours; nothing changed.
    nothing_new :
        Ancestor (b.get s) ours theirs → t ≡ s → Explained branch ours theirs policy s t up_to_date
    -- The histories are disjoint; nothing changed.
    unrelated :
        ((c : ContentHash) → Ancestor (b.get s) ours c → ¬ Ancestor (b.get s) theirs c)
        → t ≡ s
        → Explained branch ours theirs policy s t no_common_ancestor
    -- Ours is in theirs; the branch and HEAD moved to theirs.
    moved :
        Ancestor (b.get s) theirs ours
        → ((other : String)
            → b.get_ref t other ≡ (
                if head == other || branch_ref branch == other
                then ok (some theirs)
                else b.get_ref s other))
        → Explained branch ours theirs policy s t (fast_forward theirs)
    -- The trees were merged against those of a common ancestor, and a commit of the result with both
    -- parents was recorded.
    joined :
        (h ancestor : ContentHash) (result : MergeResult) (c : CommitObject) (a o u : TreeObject)
        (sides : Sides)
        → Ancestor (b.get s) ours ancestor
        → Ancestor (b.get s) theirs ancestor
        → load_tree_from_commit b hash_object s ancestor ≡ ok a
        → load_tree_from_commit b hash_object s ours ≡ ok o
        → load_tree_from_commit b hash_object s theirs ≡ ok u
        → (merge_trees b docs a o u policy sides s).0 ≡ ok result
        → c.tree ≡ result.tree
        → c.parents ≡ ours ∷ theirs ∷ []
        → IsRecorded b hash_object branch c (merge_trees b docs a o u policy sides s).1 h t
        → Explained branch ours theirs policy s t (merged h result)

  module _ (law : IsLawful b) (branch target : String) (author : Author) (message : String)
      (policy : MergePolicy S) (now : ℕ) where
    forward-Explained :
        (ours theirs : ContentHash) (s : S) (out : MergeOutcome)
        → Ancestor (b.get s) theirs ours
        → (forward b hash_object docs fuel branch theirs s).0 ≡ ok out
        → Explained branch ours theirs policy s
            (forward b hash_object docs fuel branch theirs s).1
            out
    unfolding forward Refs.set_head
    forward-Explained ours theirs s out up e =
        let (u, w, e₂, st₂) = >>=-eq-ok (b.set_ref (branch_ref branch) theirs) _ s e in
        let after = (b.set_ref (branch_ref branch) theirs s).1 in
        let (v, x, e₃, st₃) =
          >>=-eq-ok (b.set_ref head theirs) (λ _. pure (fast_forward theirs)) after e₂ in
        let same : fast_forward theirs ≡ out = cc in
        rw (← same) (
          moved up (λ other.
            let one = law.get_ref-set_ref after head other theirs x in
            let two = law.get_ref-set_ref s (branch_ref branch) other theirs w in
            ap (λ t. b.get_ref t other) (st₂ ∙ st₃) ∙ ground (arith, one, two)))

    abbrev joint_commit : ContentHash → ContentHash → MergeResult → CommitObject
    joint_commit ours theirs result = record {
      tree = result.tree;
      parents = ours ∷ theirs ∷ [];
      author = author;
      timestamp = now;
      message = message;
    }

    joined-Explained :
        (ours theirs ancestor : ContentHash) (s : S) (a o u : TreeObject) (sides : Sides)
        (result : MergeResult) (h : ContentHash) (out : MergeOutcome) (t : S)
        → Ancestor (b.get s) ours ancestor
        → Ancestor (b.get s) theirs ancestor
        → load_tree_from_commit b hash_object s ancestor ≡ ok a
        → load_tree_from_commit b hash_object s ours ≡ ok o
        → load_tree_from_commit b hash_object s theirs ≡ ok u
        → (merge_trees b docs a o u policy sides s).0 ≡ ok result
        → (record_commit b hash_object branch
            (joint_commit ours theirs result)
            (merge_trees b docs a o u policy sides s).1).0
          ≡ ok h
        → merged h result ≡ out
        → t
          ≡ (record_commit b hash_object branch
              (joint_commit ours theirs result)
              (merge_trees b docs a o u policy sides s).1).1
        → Explained branch ours theirs policy s t out
    joined-Explained ours theirs ancestor s a o u sides result h out t up_ours up_theirs la lo lu m
          n same st =
        rw (st, ← same)
          (joined h ancestor result (joint_commit ours theirs result) a o u sides up_ours up_theirs
            la lo lu m refl refl
            (record_commit-IsRecorded b hash_object law branch (joint_commit ours theirs result)
              (merge_trees b docs a o u policy sides s).1 h n))

    merge_commits-Explained :
        (ours theirs ancestor : ContentHash) (s : S) (out : MergeOutcome)
        → Ancestor (b.get s) ours ancestor
        → Ancestor (b.get s) theirs ancestor
        → (merge_commits b hash_object docs fuel branch target author message policy now ours theirs
            ancestor s).0
          ≡ ok out
        → Explained branch ours theirs policy s
            (merge_commits b hash_object docs fuel branch target author message policy now ours
              theirs ancestor s).1
            out
    unfolding merge_commits
    merge_commits-Explained ours theirs ancestor s out up_ours up_theirs e =
        let (o, p, e₁, st₁) =
          >>=-eq-ok (reading (λ t. load_tree_from_commit b hash_object t ours)) _ s e in
        let (u, q, e₂, st₂) =
          >>=-eq-ok (reading (λ t. load_tree_from_commit b hash_object t theirs)) _ s e₁ in
        let (a, r, e₃, st₃) =
          >>=-eq-ok (reading (λ t. load_tree_from_commit b hash_object t ancestor)) _ s e₂ in
        let sides : Sides = record {
          ours_ref = branch_ref branch;
          theirs_ref = branch_ref target;
          ours_commit = ours;
          theirs_commit = theirs;
          ancestor_commit = ancestor;
        } in
        let (result, m, e₄, st₄) = >>=-eq-ok (merge_trees b docs a o u policy sides) _ s e₃ in
        let c = joint_commit ours theirs result in
        let mid = (merge_trees b docs a o u policy sides s).1 in
        let (h, n, e₅, st₅) =
          >>=-eq-ok (record_commit b hash_object branch c) (λ h. pure (merged h result)) mid e₄ in
        let same : merged h result ≡ out = cc in
        joined-Explained ours theirs ancestor s a o u sides result h out _ up_ours up_theirs r p q m
          n same (st₁ ∙ st₂ ∙ st₃ ∙ st₄ ∙ st₅)

    merge_from-Explained :
        (ours theirs : ContentHash) (found : Option ContentHash) (s : S) (out : MergeOutcome)
        → common_ancestor (b.get s) (fuel s) ours theirs ≡ ok found
        → (merge_from b hash_object docs fuel branch target author message policy now ours theirs
            found s).0
          ≡ ok out
        → Explained branch ours theirs policy s
            (merge_from b hash_object docs fuel branch target author message policy now ours theirs
              found s).1
            out
    unfolding merge_from
    merge_from-Explained ours theirs none s out g e =
        let same : no_common_ancestor ≡ out = cc in
        rw (← same) (unrelated (common_ancestor_complete (b.get s) (fuel s) ours theirs g) refl)
    merge_from-Explained ours theirs (some ancestor) s out g e =
        let (up_ours, up_theirs) =
          common_ancestor_sound (b.get s) (fuel s) ours theirs ancestor g in
        elim (Bool-cases (ancestor == ours)) [
          | inl is_ours ↦
              let at : ancestor ≡ ours = (==_iff ancestor ours).0 is_ours in
              rw is_ours
                (forward-Explained ours theirs s out (rw at at up_theirs) (rw is_ours at e))
          | inr not_ours ↦ elim (Bool-cases (ancestor == theirs)) [
            | inl is_theirs ↦
                let at : ancestor ≡ theirs = (==_iff ancestor theirs).0 is_theirs in
                let same : up_to_date ≡ out = ground (arith, e, not_ours, is_theirs) in
                rw (not_ours, is_theirs, ← same) (nothing_new (rw at at up_ours) refl)
            | inr not_theirs ↦
                rw (not_ours, not_theirs)
                  (merge_commits-Explained ours theirs ancestor s out up_ours up_theirs
                    (rw (not_ours, not_theirs) at e))
          ]
        ]

    merge_tips-Explained :
        (ours theirs : ContentHash) (s : S) (out : MergeOutcome)
        → (merge_tips b hash_object docs fuel branch target author message policy now ours theirs
            s).0
          ≡ ok out
        → Explained branch ours theirs policy s
            (merge_tips b hash_object docs fuel branch target author message policy now ours theirs
              s).1
            out
    unfolding merge_tips
    merge_tips-Explained ours theirs s out e = elim (Bool-cases (ours == theirs)) [
      | inl equal ↦
          let at : ours ≡ theirs = (==_iff ours theirs).0 equal in
          let same : up_to_date ≡ out = ground (arith, e, equal) in
          rw (equal, ← same) (nothing_new (rw at here) refl)
      | inr differ ↦
          let (found, g, e₁, st₁) =
            >>=-eq-ok (reading (λ t. common_ancestor (b.get t) (fuel t) ours theirs)) _ s
              (rw differ at e) in
          rw (differ, st₁) (merge_from-Explained ours theirs found s out g e₁)
    ]

    -- Over a lawful store in which the two branches are at `ours` and `theirs`, each outcome of
    -- `merge` is explained. Up to date: `theirs` is an ancestor of `ours`, and nothing changed. No
    -- common ancestor: there is none, and nothing changed. Fast-forward: `ours` is an ancestor of
    -- `theirs`, and the branch and HEAD moved to `theirs`, the other refs not. Merged: `merge_trees`
    -- gave the result for the trees of the two commits and of a common ancestor, and a commit of the
    -- result with the two as its parents was recorded.
    pub merge-Explained :
        (ours theirs : ContentHash) (s : S) (out : MergeOutcome)
        → b.get_ref s (branch_ref branch) ≡ ok (some ours)
        → b.get_ref s (branch_ref target) ≡ ok (some theirs)
        → (merge b hash_object docs fuel branch target author message policy now s).0 ≡ ok out
        → Explained branch ours theirs policy s
            (merge b hash_object docs fuel branch target author message policy now s).1
            out
    unfolding merge Refs.get_branch
    merge-Explained ours theirs s out our_tip their_tip e =
        let (x, p, e₁, st₁) = >>=-eq-ok (reading (λ t. b.get_ref t (branch_ref branch))) _ s e in
        let (o, q, e₂, st₂) =
          >>=-eq-ok (lift (ok_or (ref ("branch '" <> branch <> "' has no commits")) x)) _ s e₁ in
        let (y, r, e₃, st₃) = >>=-eq-ok (reading (λ t. b.get_ref t (branch_ref target))) _ s e₂ in
        let (t, u, e₄, st₄) =
          >>=-eq-ok (lift (ok_or (ref ("branch '" <> target <> "' not found")) y)) _ s e₃ in
        let same_o : o ≡ ours = ground (arith, p, our_tip, q) in
        let same_t : t ≡ theirs = ground (arith, r, their_tip, u) in
        rw (st₁ ∙ st₂ ∙ st₃ ∙ st₄, ← same_o, ← same_t) (merge_tips-Explained o t s out e₄)
