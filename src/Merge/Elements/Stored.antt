-- ===== src/Merge/Elements/Stored.antt =====
-- What merging elements leaves in the store.
use clayers.Prelude.{
  ◌≡◌, ◌≢◌, refl, sym, ap, ◌∙◌, inl, inr, ℕ, suc, true, false, Option, none, some, List, [], nat_eq,
  string_eq, option_eq, Bool-cases,
}
use clayers.Prelude.Dict.{collect}
use clayers.Error.{ContentHash, ok}
use clayers.Object.{Object, element, Attribute, ElementObject}
use clayers.Store.{fetch}
use clayers.Store.Lawful.{Backend, IsLawful}
use clayers.Action.{Action, ◌>>=◌, >>=-eq-ok}
use clayers.Merge.ThreeWay.{three_way}
use clayers.Merge.Attributes.{merge_attributes}
use clayers.Merge.Children.{child_key_eq, key_children}
use clayers.Merge.Elements.{Keyed, Recursive, merged_children}
use clayers.Merge.Elements.Recursion.{
  Cache, Hashing, merged_element, same_name, finish_element, keyed_of, merge_with_attributes,
  merge_objects, loaded, merge_elements_cached,
}
use clayers.Merge.Elements.Merged.{
  IsMergedElement, short_circuits, write_element_lem, merged_element-IsMergedElement,
}

module _ {S : Type 0} (b : Backend S) (hashing : Hashing) (depth : ℕ) where
  -- An action that leaves, at the hash that it gives, the element that three elements merge to.
  abbrev pub Leaves :
      Recursive (S × Cache)
      → S × Cache
      → ElementObject
      → ElementObject
      → ElementObject
      → ContentHash
      → S × Cache
      → Type 0
  Leaves again st a o t h after =
      (e : ElementObject) × IsMergedElement b hashing depth again st a o t e
      × (b.get after.0 h ≡ ok (some (element e)))

  module _ (lawful : IsLawful b)
      (readable : (s : S) (h : ContentHash) → (x : Option Object) × (b.get s h ≡ ok x)) where
    finish_element-Leaves :
        (again : Recursive (S × Cache)) (st mid : S × Cache) (a o t : ElementObject)
        (attrs : List Attribute) (children : Option (List ContentHash)) (ka ko kt : Keyed)
        (h : ContentHash)
        → same_name a o t ≡ true
        → merge_attributes a.attributes o.attributes t.attributes ≡ some attrs
        → key_children (b.get st.0) a.children ≡ ok ka
        → key_children (b.get st.0) o.children ≡ ok ko
        → key_children (b.get st.0) t.children ≡ ok kt
        → (merged_children again (collect [] ka) (collect [] ko) (collect [] kt) [] ko kt st).0
          ≡ ok children
        → (finish_element b hashing depth o attrs children mid).0 ≡ ok (some h)
        → Leaves again st a o t h (finish_element b hashing depth o attrs children mid).1
    finish_element-Leaves again st mid a o t attrs none ka ko kt h named attributed ea eo et ran
          wrote =
        cc
    finish_element-Leaves again st mid a o t attrs (some cs) ka ko kt h named attributed ea eo et
          ran wrote =
        let (i, there) =
          write_element_lem b hashing depth lawful readable (merged_element hashing o attrs cs) mid
            h wrote in
        (
          record (merged_element hashing o attrs cs) { inclusive_hash = i },
          merged_element-IsMergedElement b hashing depth lawful readable again st a o t attrs cs i
              ka ko kt named attributed ea eo et ran,
          there,
        )

    merge_with_attributes-Leaves :
        (again : Recursive (S × Cache)) (st : S × Cache) (a o t : ElementObject)
        (attrs : Option (List Attribute)) (h : ContentHash)
        → same_name a o t ≡ true
        → merge_attributes a.attributes o.attributes t.attributes ≡ attrs
        → (merge_with_attributes b hashing depth again a o t attrs st).0 ≡ ok (some h)
        → Leaves again st a o t h (merge_with_attributes b hashing depth again a o t attrs st).1
    merge_with_attributes-Leaves again st a o t none h named attributed e = cc
    merge_with_attributes-Leaves again st a o t (some attrs) h named attributed e =
        let (ka, ea, e1, p1) = >>=-eq-ok (keyed_of b hashing depth a) _ st e in
        let (ko, eo, e2, p2) = >>=-eq-ok (keyed_of b hashing depth o) _ st e1 in
        let (kt, et, e3, p3) = >>=-eq-ok (keyed_of b hashing depth t) _ st e2 in
        let loops : Action (S × Cache) (Option (List ContentHash)) =
          merged_children again (collect [] ka) (collect [] ko) (collect [] kt) [] ko kt in
        let (children, ran, wrote, p4) =
          >>=-eq-ok loops (finish_element b hashing depth o attrs) st e3 in
        let (merged, fits, there) =
          finish_element-Leaves again st (loops st).1 a o t attrs children ka ko kt h named
            attributed ea eo et ran wrote in
        (merged, fits, ap (λ after. b.get after.0 h) (p1 ∙ p2 ∙ p3 ∙ p4) ∙ there)

    -- Elements of different names are not merged.
    not_named :
        (again : Recursive (S × Cache)) (st : S × Cache) (h : ContentHash) (a o t : ElementObject)
        → same_name a o t ≡ false
        → (merge_objects b hashing depth again (element a) (element o) (element t) st).0
          ≢ ok (some h)
    not_named again st h a o t other = rw other (λ e. cc)

    merge_objects-Leaves :
        (again : Recursive (S × Cache)) (st : S × Cache) (x y z : Object) (h : ContentHash)
        → (merge_objects b hashing depth again x y z st).0 ≡ ok (some h)
        → (a : ElementObject) × (o : ElementObject) × (t : ElementObject) × (x ≡ element a)
          × (y ≡ element o)
          × (z ≡ element t)
          × Leaves again st a o t h (merge_objects b hashing depth again x y z st).1
    merge_objects-Leaves again st (element a) (element o) (element t) h e =
        elim (Bool-cases (same_name a o t)) [
          | inl named ↦
              let attrs : Option (List Attribute) =
                merge_attributes a.attributes o.attributes t.attributes in
              let is : merge_objects b hashing depth again (element a) (element o) (element t) st
                  ≡ merge_with_attributes b hashing depth again a o t attrs st =
                rw named refl in
              let (merged, fits, there) =
                merge_with_attributes-Leaves again st a o t attrs h named refl
                  (sym (ap (λ r. r.0) is) ∙ e) in
              (a, o, t, refl, refl, refl, (merged, fits, ap (λ r. b.get r.1.0 h) is ∙ there))
          | inr other ↦ absurd (not_named again st h a o t other e)
        ]
    merge_objects-Leaves again st _ _ _ h e = cc

    pub merge_elements_cached_lem :
        (n : ℕ) (ancestor ours theirs h : ContentHash) (st : S × Cache)
        → three_way ancestor ours theirs ≡ none
        → (merge_elements_cached b hashing depth (suc n) ancestor ours theirs st).0 ≡ ok (some h)
        → (a : ElementObject) × (o : ElementObject) × (t : ElementObject) × (fetch
              (b.get st.0)
              ancestor
            ≡ ok (element a))
          × (fetch (b.get st.0) ours ≡ ok (element o))
          × (fetch (b.get st.0) theirs ≡ ok (element t))
          × Leaves
              (merge_elements_cached b hashing depth n)
              st
              a
              o
              t
              h
              (merge_elements_cached b hashing depth (suc n) ancestor ours theirs st).1
    unfolding merge_elements_cached
    merge_elements_cached_lem n ancestor ours theirs h st open_question e =
        let again : Recursive (S × Cache) = merge_elements_cached b hashing depth n in
        let (x, ex, e1, p1) =
          >>=-eq-ok (loaded b hashing depth ancestor) _ st (sym (ap (λ r. r.0) is) ∙ e) in
        let (y, ey, e2, p2) = >>=-eq-ok (loaded b hashing depth ours) _ st e1 in
        let (z, ez, e3, p3) = >>=-eq-ok (loaded b hashing depth theirs) _ st e2 in
        let (a, o, t, xa, yo, zt, (merged, fits, there)) =
          merge_objects-Leaves again st x y z h e3 in
        (
          a,
          o,
          t,
          ex ∙ ap ok xa,
          ey ∙ ap ok yo,
          ez ∙ ap ok zt,
          (
            merged,
            fits,
            ap (λ r. b.get r.1.0 h) is ∙ ap (λ after. b.get after.0 h) (p1 ∙ p2 ∙ p3) ∙ there,
          ),
        )
      where
        body : Action (S × Cache) (Option ContentHash)
        body = loaded b hashing depth ancestor >>= λ a. loaded b hashing depth ours >>= λ o.
            loaded b hashing depth theirs >>= λ t.
            merge_objects b hashing depth (merge_elements_cached b hashing depth n) a o t

        is : merge_elements_cached b hashing depth (suc n) ancestor ours theirs st ≡ body st
        is = (short_circuits ancestor ours theirs body st).1 open_question
