-- ===== src/Diff/Trees/Exact.antt =====
-- The changes that `diff_trees` lists are those of the two trees' documents, and applied to the
-- first tree they give the second.
use clayers.Prelude.{
  String, ◌≡◌, refl, ap, ◌∙◌, inl, inr, true, false, Option, none, some, List, [], ◌∷◌, ◌++◌,
  contains, distinct, ◌==◌, ==_iff, ==_refl, string_eq, nat_eq, if◌then◌else◌, arith, Bool-cases,
}
use clayers.Error.{ContentHash}
use clayers.Object.{TreeEntry, TreeObject, paths_of}
use clayers.Object.Tree.{find_entry}
use clayers.Merge.Trees.Steps.{document_of}
use clayers.Diff.Trees.{
  FileChange, added, removed, modified, change_of, removed_or_modified, added_entries, diff_trees,
}

-- What the changes say about a path: the last one that names it counts.
abbrev pub apply : List FileChange → (String → Option ContentHash) → String → Option ContentHash
apply [] f = f
apply (added q h ∷ cs) f = apply cs (λ p. if q == p then some h else f p)
apply (removed q h ∷ cs) f = apply cs (λ p. if q == p then none else f p)
apply (modified q old new ∷ cs) f = apply cs (λ p. if q == p then some new else f p)

apply-append :
    (xs ys : List FileChange) (f : String → Option ContentHash)
    → apply (xs ++ ys) f ≡ apply ys (apply xs f)
apply-append [] ys f = refl
apply-append (added q h ∷ xs) ys f = apply-append xs ys _
apply-append (removed q h ∷ xs) ys f = apply-append xs ys _
apply-append (modified q old new ∷ xs) ys f = apply-append xs ys _

-- The document of a tree at a path.
abbrev pub document_at : List TreeEntry → String → Option ContentHash
document_at es p = document_of (find_entry p es)

find_entry-path :
    (es : List TreeEntry) (p : String) (e : TreeEntry) → find_entry p es ≡ some e → e.path ≡ p
unfolding find_entry
find_entry-path [] p e h = cc
find_entry-path (f ∷ es) p e h = ground (arith, find_entry-path es p e, h, ==_iff f.path p)

find_entry-contains :
    (es : List TreeEntry) (p : String) → contains (paths_of es) p ≡ false → find_entry p es ≡ none
unfolding find_entry
find_entry-contains [] p n = refl
find_entry-contains (f ∷ es) p n = ground (arith, find_entry-contains es p, n)

find_entry-head :
    (e : TreeEntry) (es : List TreeEntry) → document_at (e ∷ es) e.path ≡ some e.document
unfolding find_entry
find_entry-head e es = ground (arith, ==_refl e.path)

find_entry-tail :
    (e : TreeEntry) (es : List TreeEntry) (q : String)
    → (e.path == q) ≡ false
    → document_at (e ∷ es) q ≡ document_at es q
unfolding find_entry
find_entry-tail e es q n = ground (arith, n)

-- After the changes of one entry.
apply-change_of :
    (e : TreeEntry) (others : List TreeEntry) (f : String → Option ContentHash) (p : String)
    → f e.path ≡ some e.document
    → apply (change_of e (find_entry e.path others)) f p
      ≡ (if e.path == p then document_at others p else f p)
apply-change_of e others f p h = go (find_entry e.path others) refl
  where
    go :
        (x : Option TreeEntry)
        → find_entry e.path others ≡ x
        → apply (change_of e x) f p ≡ (if e.path == p then document_at others p else f p)
    go none q = elim (Bool-cases (e.path == p)) [
      | inl here ↦ let at = (==_iff e.path p).0 here in ground (arith, at, q, here)
      | inr off ↦ ground (arith, off)
    ]
    go (some g) q = elim (Bool-cases (e.path == p)) [
      | inl here ↦
          let at = (==_iff e.path p).0 here in
          elim (Bool-cases (e.document == g.document)) [
            | inl equal ↦ ground (arith, at, q, here, h, equal, ==_iff e.document g.document)
            | inr differ ↦ ground (arith, at, q, here, differ)
          ]
      | inr off ↦ elim (Bool-cases (e.document == g.document)) [
        | inl equal ↦ ground (arith, off, equal)
        | inr differ ↦ ground (arith, off, differ)
      ]
    ]

-- After the first loop, the paths of the first tree have the documents of the second.
apply-removed_or_modified :
    (es others : List TreeEntry) (f : String → Option ContentHash) (p : String)
    → distinct (paths_of es) ≡ true
    → ((q : String) → contains (paths_of es) q ≡ true → f q ≡ document_at es q)
    → apply (removed_or_modified es others) f p
      ≡ (if contains (paths_of es) p then document_at others p else f p)
unfolding removed_or_modified
apply-removed_or_modified [] others f p d h = refl
apply-removed_or_modified (e ∷ es) others f p d h =
    let first = apply-change_of e others f in
    let known : f e.path ≡ some e.document =
      h e.path (ground (arith, ==_refl e.path)) ∙ find_entry-head e es in
    let g = apply (change_of e (find_entry e.path others)) f in
    let rest =
      apply-removed_or_modified es others g p (ground (arith, d)) (λ q m.
        first q known ∙ ground (arith, d, m, ==_iff e.path q, h q, find_entry-tail e es q)) in
    ap (λ k. k p)
      (apply-append (change_of e (find_entry e.path others)) (removed_or_modified es others) f)
    ∙ rest
    ∙ ground (arith, first p known)

apply-added_entries :
    (known : List String) (es : List TreeEntry) (f : String → Option ContentHash) (p : String)
    → distinct (paths_of es) ≡ true
    → apply (added_entries known es) f p ≡ (
        if contains known p
        then f p
        else if contains (paths_of es) p
        then document_at es p
        else f p)
unfolding added_entries find_entry
apply-added_entries known [] f p d = ground arith
apply-added_entries known (e ∷ es) f p d = elim (Bool-cases (contains known e.path)) [
  | inl old ↦
      let rest = apply-added_entries known es f p (ground (arith, d)) in
      rw old (rest ∙ ground (arith, d, old, ==_iff e.path p))
  | inr new ↦
      let rest =
        apply-added_entries known es (λ q. if e.path == q then some e.document else f q) p
          (ground (arith, d)) in
      rw new (rest ∙ ground (arith, d, new, ==_iff e.path p))
]

-- For two trees in which no path stands twice: the changes that `diff_trees` lists, applied to the
-- documents of the first tree, give at every path the document of the second.
pub apply-diff_trees :
    (a b : TreeObject) (p : String)
    → distinct (paths_of a.entries) ≡ true
    → distinct (paths_of b.entries) ≡ true
    → apply (diff_trees a b) (document_at a.entries) p ≡ document_at b.entries p
unfolding diff_trees
apply-diff_trees a b p da db =
    let first =
      apply-removed_or_modified a.entries b.entries (document_at a.entries) p da (λ q m. refl) in
    ap (λ g. g p)
      (apply-append (removed_or_modified a.entries b.entries)
        (added_entries (paths_of a.entries) b.entries) (document_at a.entries))
    ∙ apply-added_entries (paths_of a.entries) b.entries
        (apply (removed_or_modified a.entries b.entries) (document_at a.entries)) p db
    ∙ ground (arith, first, find_entry-contains b.entries p, find_entry-contains a.entries p)
