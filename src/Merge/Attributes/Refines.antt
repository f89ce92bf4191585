-- ===== src/Merge/Attributes/Refines.antt =====
-- Merging attribute lists is the three-way merge of the value of each key.
use clayers.Prelude.{
  ◌≡◌, refl, sym, ap, ◌∙◌, ◌≢◌, ◌⊎◌, inl, inr, true, Option, none, some, List, [], ◌∷◌, contains,
  distinct, ==_iff, string_eq, option_eq, if◌then◌else◌, arith, Bool-cases,
}
use clayers.Prelude.Dict.{Dict, lookup, insert, collect, lookup-insert}
use clayers.Object.{Attribute}
use clayers.Merge.ThreeWay.{three_way}
use clayers.Merge.Attributes.{
  Key, key_of, keyed, attribute_map, key_eq, ordered_keys, Verdict, keep, gone, clash, judge,
  merge_keys, merge_attributes,
}
use clayers.Merge.Attributes.Values.{
  value_of_attribute, value_of, verdict_value, judge-three_way, Keyed, attribute_map-Keyed,
  judge-Keyed, contains-ordered_keys, distinct-ordered_keys, attribute_map-none, kept_value,
}

module _ (anc our their : Dict Key Attribute) (our_keyed : Keyed our)
    (their_keyed : Keyed their) where
  abbrev verdict : Key → Verdict
  verdict k = judge (lookup k anc) (lookup k our) (lookup k their)

  merge_keys-cons :
      (j : Key) (ks : List Key) (merged : List Attribute)
      → merge_keys anc our their (j ∷ ks) ≡ some merged
      → (rest : List Attribute) × (merge_keys anc our their ks ≡ some rest)
        × (((a : Attribute) × (verdict j ≡ keep a) × (merged ≡ a ∷ rest))
            ⊎ (verdict j ≡ gone) × (merged ≡ rest))
  unfolding merge_keys
  merge_keys-cons j ks merged e = go (verdict j) (merge_keys anc our their ks) refl refl
    where
      go :
          (v : Verdict) (r : Option (List Attribute))
          → verdict j ≡ v
          → merge_keys anc our their ks ≡ r
          → (rest : List Attribute) × (merge_keys anc our their ks ≡ some rest)
            × (((a : Attribute) × (verdict j ≡ keep a) × (merged ≡ a ∷ rest))
                ⊎ (verdict j ≡ gone) × (merged ≡ rest))
      go (keep a) (some rest) p q = (rest, q, inl (a, p, ground (arith, p, q, e)))
      go gone (some rest) p q = (rest, q, inr (p, ground (arith, p, q, e)))
      go clash r p q = ground (arith, p, q, e)
      go (keep a) none p q = ground (arith, p, q, e)
      go gone none p q = ground (arith, p, q, e)

  -- The merged list, put into a map, has what the verdicts keep.
  lookup-merge_keys :
      (ks : List Key) (merged : List Attribute) (d : Dict Key Attribute) (k : Key)
      → merge_keys anc our their ks ≡ some merged
      → distinct ks ≡ true
      → lookup k (collect d (keyed merged))
        ≡ (if contains ks k then kept_value (verdict k) (lookup k d) else lookup k d)
  unfolding merge_keys collect
  lookup-merge_keys [] merged d k e s = let same : merged ≡ [] = ground (arith, e) in rw same
  lookup-merge_keys (j ∷ ks) merged d k e s =
      let (rest, q, c) = merge_keys-cons j ks merged e in
      elim c [
        | inl (a, p, same) ↦
            let name =
              judge-Keyed j (lookup j anc) (lookup j our) (lookup j their) a (our_keyed j)
                (their_keyed j) p in
            let ih = lookup-merge_keys ks rest (insert (key_of a) a d) k q (ground arith) in
            let at = lookup-insert k (key_of a) a d in
            rw same (ih ∙ ground (arith, at, name, p, s, ==_iff j k))
        | inr (p, same) ↦
            let ih = lookup-merge_keys ks rest d k q (ground arith) in
            rw same (ih ∙ ground (arith, p, s, ==_iff j k))
      ]

  merge_keys-not_clash :
      (ks : List Key) (merged : List Attribute) (k : Key)
      → merge_keys anc our their ks ≡ some merged
      → contains ks k ≡ true
      → verdict k ≢ clash
  unfolding merge_keys
  merge_keys-not_clash [] merged k e m = cc
  merge_keys-not_clash (j ∷ ks) merged k e m =
      let (rest, q, c) = merge_keys-cons j ks merged e in
      let ih = merge_keys-not_clash ks rest k q in
      elim c [
        | inl (a, p, same) ↦ ground (arith, ih, p, m, ==_iff j k)
        | inr (p, same) ↦ ground (arith, ih, p, m, ==_iff j k)
      ]

  merge_keys-none :
      (ks : List Key) → merge_keys anc our their ks ≡ none → (k : Key) × (verdict k ≡ clash)
  unfolding merge_keys
  merge_keys-none [] e = cc
  merge_keys-none (j ∷ ks) e =
      go (verdict j) (merge_keys anc our their ks) refl refl (λ q. merge_keys-none ks q)
    where
      go :
          (v : Verdict) (r : Option (List Attribute))
          → verdict j ≡ v
          → merge_keys anc our their ks ≡ r
          → (merge_keys anc our their ks ≡ none → (k : Key) × (verdict k ≡ clash))
          → (k : Key) × (verdict k ≡ clash)
      go clash r p q ih = (j, p)
      go (keep a) none p q ih = ih q
      go gone none p q ih = ih q
      go (keep a) (some rest) p q ih = ground (arith, p, q, e)
      go gone (some rest) p q ih = ground (arith, p, q, e)

-- What stands in the merged list's map under a key.
lookup-merged :
    (a o t merged : List Attribute) (k : Key)
    → merge_attributes a o t ≡ some merged
    → lookup k (attribute_map merged) ≡ (
        if contains (ordered_keys a o t) k
        then kept_value
            (judge
              (lookup k (attribute_map a))
              (lookup k (attribute_map o))
              (lookup k (attribute_map t)))
            none
        else none)
unfolding merge_attributes attribute_map lookup
lookup-merged a o t merged k e =
    lookup-merge_keys (attribute_map a) (attribute_map o) (attribute_map t) (attribute_map-Keyed o)
      (attribute_map-Keyed t) (ordered_keys a o t) merged [] k e (distinct-ordered_keys a o t)

verdict_value-kept :
    (v : Verdict) → v ≢ clash → verdict_value v ≡ some (value_of_attribute (kept_value v none))
verdict_value-kept (keep a) n = refl
verdict_value-kept gone n = refl
verdict_value-kept clash n = absurd (n refl)

-- The value of one key, when the lists merge.
merged_value :
    (a o t merged : List Attribute) (k : Key)
    → merge_attributes a o t ≡ some merged
    → three_way (value_of k a) (value_of k o) (value_of k t) ≡ some (value_of k merged)
unfolding merge_attributes
merged_value a o t merged k e =
    let anc = attribute_map a in
    let our = attribute_map o in
    let their = attribute_map t in
    let ks = ordered_keys a o t in
    let v = judge (lookup k anc) (lookup k our) (lookup k their) in
    let spec = judge-three_way (lookup k anc) (lookup k our) (lookup k their) in
    let found = lookup-merged a o t merged k e in
    let all = contains-ordered_keys a o t k in
    elim (Bool-cases (contains ks k)) [
      | inl m ↦
          let clean =
            merge_keys-not_clash anc our their (attribute_map-Keyed o) (attribute_map-Keyed t) ks
              merged k e m in
          sym spec
          ∙ verdict_value-kept v clean
          ∙ ap (λ x. some (value_of_attribute x)) (ground (arith, found, m))
      | inr m ↦
          let no_a = attribute_map-none a k (ground (arith, all, m)) in
          let no_o = attribute_map-none o k (ground (arith, all, m)) in
          let no_t = attribute_map-none t k (ground (arith, all, m)) in
          let no_m : lookup k (attribute_map merged) ≡ none = ground (arith, found, m) in
          rw (no_a, no_o, no_t, no_m) refl
    ]

-- Where `merge_attributes` gives a list, its value for each key is the three-way merge of the three
-- lists' values for that key; where it gives none, the three values of some key conflict.
pub merge_attributes_refines :
    (a o t : List Attribute)
    → ((merged : List Attribute)
        → merge_attributes a o t ≡ some merged
        → (k : Key)
        → three_way (value_of k a) (value_of k o) (value_of k t) ≡ some (value_of k merged))
      × (merge_attributes a o t ≡ none
          → (k : Key) × (three_way (value_of k a) (value_of k o) (value_of k t) ≡ none))
unfolding merge_attributes
merge_attributes_refines a o t =
    let anc = attribute_map a in
    let our = attribute_map o in
    let their = attribute_map t in
    (
      λ merged e k. merged_value a o t merged k e,
      λ e.
          let (k, p) =
            merge_keys-none anc our their (attribute_map-Keyed o) (attribute_map-Keyed t)
              (ordered_keys a o t) e in
          (
            k,
            sym (judge-three_way (lookup k anc) (lookup k our) (lookup k their))
                ∙ ap verdict_value p,
          ),
    )
