-- ===== src/Merge/Elements/Merged.antt =====
-- The element that three elements merge to.
use clayers.Prelude.{
  ◌≡◌, ◌≢◌, refl, sym, ap, ◌∙◌, inl, inr, ℕ, true, Option, none, some, List, [], ◌∷◌, ◌++◌, ◌==◌,
  ==_iff, nat_eq, string_eq, option_eq, Bool-cases, if◌then◌else◌, arith,
}
use clayers.Prelude.Dict.{lookup, collect, keys}
use clayers.Error.{ContentHash, Result, ok}
use clayers.Object.{Object, element, Attribute, ElementObject}
use clayers.Store.Lawful.{Backend, IsLawful}
use clayers.Action.{Action, pure, >>=-eq-ok}
use clayers.Merge.ThreeWay.{three_way}
use clayers.Merge.Attributes.{merge_attributes}
use clayers.Merge.Children.{ChildKey, child_key_eq, key_children}
use clayers.Merge.Elements.{Keyed, Recursive, merged_children}
use clayers.Merge.Elements.Children.{
  by_key, new_keys, children_at, by_key-independent, merged_children_refines,
}
use clayers.Merge.Elements.Recursion.{
  Cache, Hashing, merged_element, same_name, hashed_element, to_store, put_one, write_element,
}

-- The merge of three hashes that the hashes alone settle, and the one that they do not.
pub short_circuits :
    {St : Type 0} (a o t : ContentHash) (m : Action St (Option ContentHash)) (st : St)
    → let merged : Action St (Option ContentHash) =
        (if o == t
          then pure (some o)
          else if o == a
          then pure (some t)
          else if t == a
          then pure (some o)
          else m) in
      ((h : ContentHash) → three_way a o t ≡ some h → merged st ≡ (ok (some h), st))
      × (three_way a o t ≡ none → merged st ≡ m st)
short_circuits a o t m st = elim (Bool-cases (o == t)) [
  | inl same ↦ rw same (λ h e. ground (arith, e), λ e. cc)
  | inr other ↦ elim (Bool-cases (o == a)) [
    | inl kept ↦
        rw (other, kept)
          (
            λ h e. ground (arith, e, other, ==_iff o t, ==_iff o a, ==_iff t a, kept),
            λ e. ground (arith, e, other, ==_iff o t, ==_iff o a, ==_iff t a, kept),
          )
    | inr changed ↦ elim (Bool-cases (t == a)) [
      | inl theirs_kept ↦
          rw (other, changed, theirs_kept)
            (
              λ h e.
                  ground
                    (arith, e, other, ==_iff o t, ==_iff o a, ==_iff t a, changed, theirs_kept),
              λ e.
                  ground
                    (arith, e, other, ==_iff o t, ==_iff o a, ==_iff t a, changed, theirs_kept),
            )
      | inr both ↦
          rw (other, changed, both)
            (
              λ h e. ground (arith, e, other, ==_iff o t, ==_iff o a, ==_iff t a, changed, both),
              λ e. refl,
            )
    ]
  ]
]

module _ {S : Type 0} (b : Backend S) (hashing : Hashing) (depth : ℕ) where
  -- The element that the merge of three elements makes, where `again` merges what they have at a key:
  -- ours in all but its attributes, its children and its inclusive hash. The children come from the
  -- three-way merge at each key; where that settles every key, they are what it gives.
  pub record IsMergedElement (again : Recursive (S × Cache)) (st : S × Cache)
      (anc ours theirs merged : ElementObject) : Type 0 where
    pub local_name :
        (anc.local_name ≡ ours.local_name)
        × (theirs.local_name ≡ ours.local_name)
        × (merged.local_name ≡ ours.local_name)
    pub namespace_uri :
        (anc.namespace_uri ≡ ours.namespace_uri)
        × (theirs.namespace_uri ≡ ours.namespace_uri)
        × (merged.namespace_uri ≡ ours.namespace_uri)
    pub prefixes :
        (merged.namespace_prefix ≡ ours.namespace_prefix)
        × (merged.extra_namespaces ≡ ours.extra_namespaces)
    pub attributes :
        merge_attributes anc.attributes ours.attributes theirs.attributes ≡ some merged.attributes
    pub children :
        (a : Keyed) × (o : Keyed) × (t : Keyed) × (key_children (b.get st.0) anc.children ≡ ok a)
        × (key_children (b.get st.0) ours.children ≡ ok o)
        × (key_children (b.get st.0) theirs.children ≡ ok t)
        × ((by_key again
              (collect [] a)
              (collect [] o)
              (collect [] t)
              (keys o ++ new_keys (keys o) (keys t))
              st).0
            ≡ ok (some merged.children))
        × (((k : ChildKey)
              → three_way
                  (lookup k (collect [] a))
                  (lookup k (collect [] o))
                  (lookup k (collect [] t))
                ≢ none)
            → merged.children
              ≡ children_at
                  (collect [] a)
                  (collect [] o)
                  (collect [] t)
                  (keys o ++ new_keys (keys o) (keys t)))

  module _ (lawful : IsLawful b)
      (readable : (s : S) (h : ContentHash) → (x : Option Object) × (b.get s h ≡ ok x)) where
    pub put_one_lem :
        (h k : ContentHash) (x : Object) (s : S)
        → (put_one b hashing depth h x s).0 ≡ ok tt
        → b.get (put_one b hashing depth h x s).1 k ≡ (if h == k then ok (some x) else b.get s k)
    put_one_lem h k x s done =
        let (old, known) = readable s k in
        lawful.get-write_batch ((h, x) ∷ []) s k old done known ∙ ground (arith, known)

    pub write_element_lem :
        (merged : ElementObject) (st : S × Cache) (h : ContentHash)
        → (write_element b hashing depth merged st).0 ≡ ok (some h)
        → (i : ContentHash) × (b.get (write_element b hashing depth merged st).1.0 h
            ≡ ok (some (element (record merged { inclusive_hash = i }))))
    unfolding write_element
    write_element_lem merged st h e =
        let (hashes, p, q, r) = >>=-eq-ok (hashed_element b hashing depth merged) _ st e in
        let mid : S × Cache = (hashed_element b hashing depth merged st).1 in
        let (u, v, w, x) =
          >>=-eq-ok
            (to_store b hashing depth (
              put_one b hashing depth hashes.0
                (element (record merged { inclusive_hash = hashes.1 }))))
            _ mid q in
        let final : Object = element (record merged { inclusive_hash = hashes.1 }) in
        let there = put_one_lem hashes.0 h final mid.0 v in
        (hashes.1, ap (λ st. b.get st.0 h) (r ∙ x) ∙ there ∙ ground (arith, w, ==_iff hashes.0 h))

    pub merged_element-IsMergedElement :
        (again : Recursive (S × Cache)) (st : S × Cache) (a o t : ElementObject)
        (attrs : List Attribute) (cs : List ContentHash) (i : ContentHash) (ka ko kt : Keyed)
        → same_name a o t ≡ true
        → merge_attributes a.attributes o.attributes t.attributes ≡ some attrs
        → key_children (b.get st.0) a.children ≡ ok ka
        → key_children (b.get st.0) o.children ≡ ok ko
        → key_children (b.get st.0) t.children ≡ ok kt
        → (merged_children again (collect [] ka) (collect [] ko) (collect [] kt) [] ko kt st).0
          ≡ ok (some cs)
        → IsMergedElement again st a o t
            (record (merged_element hashing o attrs cs) { inclusive_hash = i })
    merged_element-IsMergedElement again st a o t attrs cs i ka ko kt named attributed ea eo et
          ran =
        record {
          local_name =
              ground
                (arith, named, ==_iff a.local_name o.local_name, ==_iff a.local_name t.local_name);
          namespace_uri = ground (
            arith,
            named,
            ==_iff a.namespace_uri o.namespace_uri,
            ==_iff a.namespace_uri t.namespace_uri,
          );
          prefixes = (refl, refl);
          attributes = attributed;
          children = (ka, ko, kt, ea, eo, et, by_keys, independent);
        }
      where
        all : List ChildKey
        all = keys ko ++ new_keys (keys ko) (keys kt)

        by_keys :
            (by_key again (collect [] ka) (collect [] ko) (collect [] kt) all st).0 ≡ ok (some cs)
        by_keys = sym (ap (λ m. (m st).0) (merged_children_refines again ka ko kt)) ∙ ran

        same_list :
            (xs ys : List ContentHash)
            → ◌≡◌ {A = Result (Option (List ContentHash))} (ok (some xs)) (ok (some ys))
            → xs ≡ ys
        same_list xs ys e = ground (arith, e)

        independent :
            ((k : ChildKey)
              → three_way
                  (lookup k (collect [] ka))
                  (lookup k (collect [] ko))
                  (lookup k (collect [] kt))
                ≢ none)
            → cs ≡ children_at (collect [] ka) (collect [] ko) (collect [] kt) all
        independent apart =
            same_list cs (children_at (collect [] ka) (collect [] ko) (collect [] kt) all) (
              sym by_keys
              ∙ ap (λ r. r.0)
                  (by_key-independent again (collect [] ka) (collect [] ko) (collect [] kt) all st
                    apart))
