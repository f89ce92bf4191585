-- ===== src/Merge/Elements/Documents.antt =====
-- What merging documents leaves in the store.
use clayers.Prelude.{
  ◌≡◌, refl, sym, ap, ◌∙◌, ◌⊎◌, inl, inr, ℕ, suc, Bool, true, false, Option, none, some, [], ◌==◌,
  ==_refl, nat_eq, string_eq, option_eq, Option-cases, if◌then◌else◌, arith,
}
use clayers.Error.{ContentHash, Result, ok}
use clayers.Object.{Object, element, document, ElementObject, DocumentObject}
use clayers.Store.{fetch}
use clayers.Store.Lawful.{Backend, IsLawful}
use clayers.Action.{Action, lift, reading, ◌>>=◌, >>=-eq-ok}
use clayers.Merge.ThreeWay.{three_way}
use clayers.Merge.Children.{child_key_eq}
use clayers.Merge.Elements.Recursion.{
  Hashing, put_one, merge_elements_cached, merge_elements, finish_document, merge_loaded,
  merge_documents,
}
use mathlib.Core.Path.{subst}
use clayers.Merge.Elements.Merged.{IsMergedElement, short_circuits, put_one_lem}
use clayers.Merge.Elements.Stored.{merge_elements_cached_lem}

module _ {S : Type 0} (b : Backend S) (hashing : Hashing) (depth : ℕ) where
  -- The root that the merge of two documents' roots gives: a root that the hashes alone settle, or a
  -- merged element, which the store has there unless the document's own hash is the same.
  abbrev pub IsMergedRoot :
      ℕ
      → S
      → DocumentObject
      → DocumentObject
      → DocumentObject
      → DocumentObject
      → ContentHash
      → S
      → Type 0
  IsMergedRoot n s a o t merged h after =
      (three_way a.root o.root t.root ≡ some merged.root)
      ⊎ ((three_way a.root o.root t.root ≡ none)
          × (anc : ElementObject) × (ours : ElementObject) × (theirs : ElementObject)
          × (root : ElementObject) × (fetch (b.get s) a.root ≡ ok (element anc))
          × (fetch (b.get s) o.root ≡ ok (element ours))
          × (fetch (b.get s) t.root ≡ ok (element theirs))
          × IsMergedElement b hashing depth (merge_elements_cached b hashing depth n) (s, []) anc
              ours theirs root
          × (b.get after merged.root
              ≡ ok (some (if h == merged.root then document merged else element root))))

  module _ (lawful : IsLawful b)
      (readable : (s : S) (h : ContentHash) → (x : Option Object) × (b.get s h ≡ ok x)) where
    same_hash :
        (g h : ContentHash)
        → ◌≡◌ {A = Result (Option ContentHash)} (ok (some g)) (ok (some h))
        → g ≡ h
    same_hash g h e = ground (arith, e)

    finish_document_lem :
        (o : DocumentObject) (result : Option ContentHash) (mid : S) (h : ContentHash)
        → (finish_document b hashing depth o result mid).0 ≡ ok (some h)
        → (root : ContentHash) × (result ≡ some root)
          × ((k : ContentHash)
              → b.get (finish_document b hashing depth o result mid).1 k
                ≡ (if h == k then ok (some (document (record o { root = root }))) else b.get mid k))
    finish_document_lem o none mid h e = cc
    finish_document_lem o (some root) mid h e =
        let merged : DocumentObject = record { root = root; prologue = o.prologue } in
        let (g, eg, e1, p1) =
          >>=-eq-ok (lift (hashing.hash_exclusive (hashing.document_xml merged))) _ mid e in
        let (u, put, e2, p2) = >>=-eq-ok (put_one b hashing depth g (document merged)) _ mid e1 in
        (
          root,
          refl,
          λ k.
              ap (λ s. b.get s k) (p1 ∙ p2)
              ∙ put_one_lem b hashing depth lawful readable g k (document merged) mid put
              ∙ ap (λ x. if x == k then ok (some (document merged)) else b.get mid k)
                  (same_hash g h e2),
        )

    chosen :
        {z : Result (Option Object)} (p : Bool) (x y : Object)
        → z ≡ ok (some y)
        → (if p then ok (some x) else z) ≡ ok (some (if p then x else y))
    chosen true x y e = refl
    chosen false x y e = e

    merge_elements-IsMergedRoot :
        (n : ℕ) (s after : S) (a o t : DocumentObject) (root h : ContentHash)
        → (merge_elements b hashing depth (suc n) a.root o.root t.root s).0 ≡ ok (some root)
        → ((k : ContentHash)
            → b.get after k ≡ (
                if h == k
                then ok (some (document (record o { root = root })))
                else b.get (merge_elements b hashing depth (suc n) a.root o.root t.root s).1 k))
        → IsMergedRoot n s a o t (record o { root = root }) h after
    unfolding merge_elements merge_elements_cached
    merge_elements-IsMergedRoot n s after a o t root h e last =
        elim (Option-cases (three_way a.root o.root t.root)) [
          | inl open_question ↦
              let (anc, ours, theirs, ea, eo, et, (merged, fits, there)) =
                merge_elements_cached_lem b hashing depth lawful readable n a.root o.root t.root
                  root (s, []) open_question e in
              inr (
                open_question,
                anc,
                ours,
                theirs,
                merged,
                ea,
                eo,
                et,
                fits,
                last root
                    ∙ chosen (h == root) (document (record o { root = root })) (element merged)
                        there,
              )
          | inr (settled, known) ↦ inl (
              known
              ∙ ap some (
                  same_hash settled root (
                    sym (
                      ap (λ r. r.0)
                        ((short_circuits a.root o.root t.root _ (s, [])).0 settled known))
                    ∙ e)))
        ]

    merge_loaded_lem :
        (n : ℕ) (s : S) (x y z : Object) (h : ContentHash)
        → (merge_loaded b hashing depth (suc n) x y z s).0 ≡ ok (some h)
        → (a : DocumentObject) × (o : DocumentObject) × (t : DocumentObject) × (root : ContentHash)
          × (x ≡ document a)
          × (y ≡ document o)
          × (z ≡ document t)
          × (b.get (merge_loaded b hashing depth (suc n) x y z s).1 h
              ≡ ok (some (document (record o { root = root }))))
          × IsMergedRoot n s a o t
              (record o { root = root })
              h
              (merge_loaded b hashing depth (suc n) x y z s).1
    merge_loaded_lem n s (document a) (document o) (document t) h e =
        let roots : Action S (Option ContentHash) =
          merge_elements b hashing depth (suc n) a.root o.root t.root in
        let (result, merged, e1, p1) = >>=-eq-ok roots (finish_document b hashing depth o) s e in
        let (root, is, last) = finish_document_lem o result (roots s).1 h e1 in
        let after : (k : ContentHash)
            → b.get
                (merge_loaded b hashing depth (suc n) (document a) (document o) (document t) s).1 k
              ≡ (if h == k
                  then ok (some (document (record o { root = root })))
                  else b.get (roots s).1 k) =
          λ k. ap (λ s. b.get s k) p1 ∙ last k in
        (
          a,
          o,
          t,
          root,
          refl,
          refl,
          refl,
          after h ∙ ground (arith, ==_refl h),
          merge_elements-IsMergedRoot n s _ a o t root h (merged ∙ ap ok is) after,
        )
    merge_loaded_lem n s _ _ _ h e = cc

    -- Over a lawful store that can be read at every hash, with at least one unit of fuel: if the
    -- three-way merge of the three hashes settles, merging the documents gives its hash and leaves
    -- the store as it was. If it does not, and merging gives a hash, the store afterwards has there
    -- a document with ours' prologue, all three hashes had documents, and its root is what the
    -- three-way merge of the roots' hashes gives or, where that does not settle, an element, which
    -- the store has at the root's hash unless the document's own hash is the same, with ours' name
    -- and prefixes, the merged attributes, and the children that the three-way merges at each key
    -- give, with the recursive merge where a key conflicts.
    pub merge_documents_lem :
        (n : ℕ) (ancestor ours theirs : ContentHash) (s : S)
        → ((h : ContentHash)
            → three_way ancestor ours theirs ≡ some h
            → merge_documents b hashing depth (suc n) ancestor ours theirs s ≡ (ok (some h), s))
          × ((h : ContentHash)
              → three_way ancestor ours theirs ≡ none
              → (merge_documents b hashing depth (suc n) ancestor ours theirs s).0 ≡ ok (some h)
              → (a : DocumentObject) × (o : DocumentObject) × (t : DocumentObject)
                × (root : ContentHash) × (fetch (b.get s) ancestor ≡ ok (document a))
                × (fetch (b.get s) ours ≡ ok (document o))
                × (fetch (b.get s) theirs ≡ ok (document t))
                × (b.get (merge_documents b hashing depth (suc n) ancestor ours theirs s).1 h
                    ≡ ok (some (document (record { root = root; prologue = o.prologue }))))
                × IsMergedRoot n s a o t
                    (record { root = root; prologue = o.prologue })
                    h
                    (merge_documents b hashing depth (suc n) ancestor ours theirs s).1)
    unfolding merge_documents
    merge_documents_lem n ancestor ours theirs s =
        let short = short_circuits ancestor ours theirs body s in
        (short.0, λ h open_question e. deep h (short.1 open_question) e)
      where
        body : Action S (Option ContentHash)
        body = reading (λ s. fetch (b.get s) ancestor) >>= λ a.
            reading (λ s. fetch (b.get s) ours) >>= λ o.
            reading (λ s. fetch (b.get s) theirs) >>= λ t.
            merge_loaded b hashing depth (suc n) a o t

        deep :
            (h : ContentHash)
            → merge_documents b hashing depth (suc n) ancestor ours theirs s ≡ body s
            → (merge_documents b hashing depth (suc n) ancestor ours theirs s).0 ≡ ok (some h)
            → (a : DocumentObject) × (o : DocumentObject) × (t : DocumentObject)
              × (root : ContentHash) × (fetch (b.get s) ancestor ≡ ok (document a))
              × (fetch (b.get s) ours ≡ ok (document o))
              × (fetch (b.get s) theirs ≡ ok (document t))
              × (b.get (merge_documents b hashing depth (suc n) ancestor ours theirs s).1 h
                  ≡ ok (some (document (record { root = root; prologue = o.prologue }))))
              × IsMergedRoot n s a o t
                  (record { root = root; prologue = o.prologue })
                  h
                  (merge_documents b hashing depth (suc n) ancestor ours theirs s).1
        deep h is e =
            let (x, ex, e1, p1) =
              >>=-eq-ok (reading (λ s. fetch (b.get s) ancestor)) _ s
                (sym (ap (λ r. r.0) is) ∙ e) in
            let (y, ey, e2, p2) = >>=-eq-ok (reading (λ s. fetch (b.get s) ours)) _ s e1 in
            let (z, ez, e3, p3) = >>=-eq-ok (reading (λ s. fetch (b.get s) theirs)) _ s e2 in
            let (a, o, t, root, xa, yo, zt, there, fits) = merge_loaded_lem n s x y z h e3 in
            let final : (merge_documents b hashing depth (suc n) ancestor ours theirs s).1
                ≡ (merge_loaded b hashing depth (suc n) x y z s).1 =
              ap (λ r. r.1) is ∙ p1 ∙ p2 ∙ p3 in
            (
              a,
              o,
              t,
              root,
              ex ∙ ap ok xa,
              ey ∙ ap ok yo,
              ez ∙ ap ok zt,
              ap (λ s. b.get s h) final ∙ there,
              subst
                  (λ after.
                    IsMergedRoot n s a o t (record { root = root; prologue = o.prologue }) h after)
                  (sym final) fits,
            )
