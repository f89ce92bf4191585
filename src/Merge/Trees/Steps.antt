-- ===== src/Merge/Trees/Steps.antt =====
-- What one turn of the file-level merge does to the vectors that it fills.
use clayers.Prelude.{
  String, ◌≡◌, refl, ap, ◌∙◌, ◌≢◌, Bool, true, false, ◌||◌, Option, none, some, List, [], ◌∷◌, ◌++◌,
  contains, contains-append, ◌==◌, ==_iff, ==_refl, string_eq, nat_eq, option_eq, if◌then◌else◌,
  arith,
}
use clayers.Error.{ContentHash}
use clayers.Object.{TreeEntry}
use clayers.Object.Tree.{find_entry}
use clayers.Merge.ThreeWay.{three_way}
use clayers.Merge.Policy.{FileConflict}
use clayers.Merge.Trees.{
  Progress, entry, FileVerdict, same, ours_changed, theirs_changed, both_added, ours_dropped,
  theirs_dropped, absent, conflicting, judge_file, with_resolved, with_divergence,
}

abbrev pub document_of : Option TreeEntry → Option ContentHash
document_of none = none
document_of (some e) = some e.document

abbrev pub divergence_paths : List FileConflict → List String
divergence_paths [] = []
divergence_paths (c ∷ cs) = c.divergence_path ∷ divergence_paths cs

abbrev pub conflict_paths : List FileConflict → List String
conflict_paths [] = []
conflict_paths (c ∷ cs) = c.path ∷ conflict_paths cs

-- The path went to the policy, or both sides added the same document.
abbrev pub reported : List String → List FileConflict → String → Bool
reported auto_merged conflicts p = contains auto_merged p || contains (conflict_paths conflicts) p

-- What the verdict makes of the three documents.
abbrev pub verdict_document : FileVerdict → Option (Option ContentHash)
verdict_document (same h) = some (some h)
verdict_document (ours_changed h) = some (some h)
verdict_document (theirs_changed h) = some (some h)
verdict_document (both_added h) = some (some h)
verdict_document ours_dropped = some none
verdict_document theirs_dropped = some none
verdict_document absent = some none
verdict_document (conflicting a o t x y d) = none

pub judge_file-three_way :
    (a o t : Option ContentHash) → verdict_document (judge_file a o t) ≡ three_way a o t
unfolding judge_file
judge_file-three_way (some a) (some o) (some t) = ground arith
judge_file-three_way none (some o) none = ground arith
judge_file-three_way none none (some t) = ground arith
judge_file-three_way none (some o) (some t) = ground arith
judge_file-three_way (some a) none (some t) = ground arith
judge_file-three_way (some a) (some o) none = ground arith
judge_file-three_way (some a) none none = ground arith
judge_file-three_way none none none = ground arith

abbrev or_else {ℓ} : {A : Type ℓ} → Option A → Option A → Option A
or_else none y = y
or_else (some x) y = some x

find_entry-push :
    (es : List TreeEntry) (e : TreeEntry) (p : String)
    → find_entry p (es ++ e ∷ []) ≡ or_else (find_entry p es) (if e.path == p then some e else none)
unfolding find_entry
find_entry-push [] e p = refl
find_entry-push (f ∷ es) e p = ground (arith, find_entry-push es e p)

divergence_paths-append :
    (xs ys : List FileConflict)
    → divergence_paths (xs ++ ys) ≡ divergence_paths xs ++ divergence_paths ys
divergence_paths-append [] ys = refl
divergence_paths-append (x ∷ xs) ys =
    ap (λ l. x.divergence_path ∷ l) (divergence_paths-append xs ys)

conflict_paths-append :
    (xs ys : List FileConflict) → conflict_paths (xs ++ ys) ≡ conflict_paths xs ++ conflict_paths ys
conflict_paths-append [] ys = refl
conflict_paths-append (x ∷ xs) ys = ap (λ l. x.path ∷ l) (conflict_paths-append xs ys)

-- One turn of the loop on `path`.
pub record Step (path : String) (v : FileVerdict) (old new : Progress) : Type 0 where
  pub others :
      (p : String)
      → path ≢ p
      → contains (divergence_paths new.conflicts) p ≡ false
      → find_entry p new.entries ≡ find_entry p old.entries
  pub settled :
      (r : Option ContentHash)
      → verdict_document v ≡ some r
      → contains (divergence_paths new.conflicts) path ≡ false
      → find_entry path old.entries ≡ none
      → document_of (find_entry path new.entries) ≡ r
  pub told : verdict_document v ≡ none → reported new.auto_merged new.conflicts path ≡ true
  pub keeps_divergence :
      (p : String)
      → contains (divergence_paths old.conflicts) p ≡ true
      → contains (divergence_paths new.conflicts) p ≡ true
  pub keeps_report :
      (p : String)
      → reported old.auto_merged old.conflicts p ≡ true
      → reported new.auto_merged new.conflicts p ≡ true

-- A turn that adds one entry and reports nothing, or at most the path as merged.
pub added-Step :
    (path : String) (h : ContentHash) (v : FileVerdict) (old new : Progress)
    → verdict_document v ≡ some (some h)
    → new.entries ≡ old.entries ++ entry path h ∷ []
    → new.conflicts ≡ old.conflicts
    → ((p : String) → contains old.auto_merged p ≡ true → contains new.auto_merged p ≡ true)
    → Step path v old new
added-Step path h v old new is_h entries conflicts merged = record {
  others = λ p n d.
      ap (find_entry p) entries
      ∙ find_entry-push old.entries (entry path h) p
      ∙ elim (find_entry p old.entries)
          as (λ x. or_else x (if path == p then some (entry path h) else none) ≡ x) [
            | none ↦ ground (arith, ==_iff path p, n)
            | some e ↦ refl
          ];
  settled = λ r e d gone. ground (
    arith,
    entries,
    find_entry-push old.entries (entry path h) path,
    gone,
    is_h,
    e,
    ==_refl path,
  );
  told = λ e. ground (arith, e, is_h);
  keeps_divergence = λ p m. rw conflicts m;
  keeps_report = λ p m. ground (arith, merged p, m, conflicts);
}

-- A turn that drops the path.
pub dropped-Step :
    (path : String) (v : FileVerdict) (old new : Progress)
    → verdict_document v ≡ some none
    → new.entries ≡ old.entries
    → new.conflicts ≡ old.conflicts
    → new.auto_merged ≡ old.auto_merged
    → Step path v old new
dropped-Step path v old new is_none entries conflicts merged = record {
  others = λ p n d. ap (find_entry p) entries;
  settled = λ r e d gone. ground (arith, entries, gone, is_none, e);
  told = λ e. ground (arith, e, is_none);
  keeps_divergence = λ p m. rw conflicts m;
  keeps_report = λ p m. ground (arith, m, conflicts, merged);
}

-- A conflict that the strategy settled.
pub resolved_Step :
    (path : String) (h : ContentHash) (v : FileVerdict) (old : Progress)
    → verdict_document v ≡ none
    → Step path v old (with_resolved path h old)
resolved_Step path h v old is_none = record {
  others = λ p n d.
      find_entry-push old.entries (entry path h) p
      ∙ elim (find_entry p old.entries)
          as (λ x. or_else x (if path == p then some (entry path h) else none) ≡ x) [
            | none ↦ ground (arith, ==_iff path p, n)
            | some e ↦ refl
          ];
  settled = λ r e d gone. ground (arith, is_none, e);
  told = λ e. ground (arith, contains-append old.auto_merged (path ∷ []) path, ==_refl path);
  keeps_divergence = λ p m. m;
  keeps_report = λ p m. ground (arith, contains-append old.auto_merged (path ∷ []) p, m);
}

-- A conflict that became a divergence.
pub diverged_Step :
    (path : String) (ours : ContentHash) (div_path : String) (div_hash : ContentHash)
    (description : String) (v : FileVerdict) (old : Progress)
    → verdict_document v ≡ none
    → Step path v old (with_divergence path ours div_path div_hash description old)
diverged_Step path ours div_path div_hash description v old is_none =
    let c : FileConflict = record {
      path = path;
      divergence_path = div_path;
      description = description;
    } in
    let divs = λ (p : String).
      ap (λ l. contains l p) (divergence_paths-append old.conflicts (c ∷ []))
      ∙ contains-append (divergence_paths old.conflicts) (div_path ∷ []) p in
    let told = λ (p : String).
      ap (λ l. contains l p) (conflict_paths-append old.conflicts (c ∷ []))
      ∙ contains-append (conflict_paths old.conflicts) (path ∷ []) p in
    record {
      others = λ p n d.
          let second =
            find_entry-push (old.entries ++ entry path ours ∷ []) (entry div_path div_hash) p in
          let first = find_entry-push old.entries (entry path ours) p in
          let apart = divs p in
          second ∙ go p n (ground (arith, apart, d)) (find_entry p old.entries) first;
      settled = λ r e d gone. ground (arith, is_none, e);
      told = λ e. ground (arith, told path, ==_refl path);
      keeps_divergence = λ p m. ground (arith, divs p, m);
      keeps_report = λ p m. ground (arith, told p, m);
    }
  where
    go :
        (p : String)
        → path ≢ p
        → (div_path == p) ≡ false
        → (x : Option TreeEntry)
        → find_entry p (old.entries ++ entry path ours ∷ [])
          ≡ or_else x (if path == p then some (entry path ours) else none)
        → or_else
            (find_entry p (old.entries ++ entry path ours ∷ []))
            (if div_path == p then some (entry div_path div_hash) else none)
          ≡ x
    go p n d none first = ground (arith, first, d, ==_iff path p, n)
    go p n d (some e) first = ground (arith, first)
