-- ===== src/Merge/Elements/Children.antt =====
-- The merged children against the three-way merge at each key.
use clayers.Prelude.{
  ◌≡◌, ◌≢◌, refl, ap, ◌∙◌, inl, inr, true, false, ◌||◌, Option, none, some, List, [], ◌∷◌, ◌++◌,
  contains, ◌==◌, ==_refl, nat_eq, option_eq, if◌then◌else◌, arith, Bool-cases, push_all,
  contains-push_all,
}
use clayers.Prelude.Dict.{Dict, lookup, insert, collect, keys, lookup-insert}
use clayers.Error.{ContentHash, ok}
use clayers.Store.Lawful.{is_some}
use clayers.Action.{Action, pure, ◌>>=◌}
use clayers.Merge.ThreeWay.{three_way}
use clayers.Merge.Children.{ChildKey, child_key_eq}
use clayers.Merge.Elements.{
  place, place_theirs, Keyed, one_merged, Recursive, push_placed, then_rest, theirs_children,
  merged_children,
}

-- What the three-way merge at a key asks for: a child, none, or, in a conflict, the merge of the three
-- elements if there are three.
abbrev pub settled :
    {St : Type 0}
    → Recursive St
    → Option ContentHash
    → Option ContentHash
    → Option ContentHash
    → Option (Option ContentHash)
    → Action St (Option (List ContentHash))
settled again a o t (some (some h)) = pure (some (h ∷ []))
settled again a o t (some none) = pure (some [])
settled again (some ah) (some oh) (some th) none =
    again ah oh th >>= λ merged. pure (one_merged merged)
settled again _ _ _ none = pure none

module _ {St : Type 0} (again : Recursive St) where
  place-three_way :
      (a t : Option ContentHash) (oh : ContentHash)
      → push_placed again (place a (some oh) t)
        ≡ settled again a (some oh) t (three_way a (some oh) t)
  unfolding push_placed place
  place-three_way none none oh = refl
  place-three_way none (some th) oh = elim (Bool-cases (oh == th)) [
    | inl same ↦ rw same refl
    | inr other ↦ rw other refl
  ]
  place-three_way (some ah) none oh = elim (Bool-cases (oh == ah)) [
    | inl same ↦ rw same refl
    | inr other ↦ rw other refl
  ]
  place-three_way (some ah) (some th) oh = elim (Bool-cases (oh == th)) [
    | inl same ↦ rw same refl
    | inr other ↦ elim (Bool-cases (th == ah)) [
      | inl kept_ours ↦ rw (other, kept_ours) refl
      | inr changed ↦ elim (Bool-cases (oh == ah)) [
        | inl kept_theirs ↦ rw (other, changed, kept_theirs) refl
        | inr both ↦ rw (other, changed, both) refl
      ]
    ]
  ]

  place_theirs-three_way :
      (a : Option ContentHash) (th : ContentHash)
      → push_placed again (place_theirs a (some th))
        ≡ settled again a none (some th) (three_way a none (some th))
  unfolding push_placed place_theirs
  place_theirs-three_way none th = refl
  place_theirs-three_way (some ah) th = elim (Bool-cases (th == ah)) [
    | inl same ↦ rw same refl
    | inr other ↦ rw other refl
  ]

  -- Each key's three-way merge in turn.
  abbrev pub by_key :
      Dict ChildKey ContentHash
      → Dict ChildKey ContentHash
      → Dict ChildKey ContentHash
      → List ChildKey
      → Action St (Option (List ContentHash))
  by_key anc our their [] = pure (some [])
  by_key anc our their (k ∷ ks) =
      settled again (lookup k anc) (lookup k our) (lookup k their)
        (three_way (lookup k anc) (lookup k our) (lookup k their))
      >>= then_rest (by_key anc our their ks)

-- The keys that are new.
abbrev pub new_keys : List ChildKey → List ChildKey → List ChildKey
new_keys old [] = []
new_keys old (k ∷ ks) = let rest = new_keys old ks in if contains old k then rest else k ∷ rest

lookup-collect :
    (d : Dict ChildKey ContentHash) (keyed : Keyed) (k : ChildKey)
    → is_some (lookup k (collect d keyed)) ≡ (is_some (lookup k d) || contains (keys keyed) k)
unfolding collect
lookup-collect d [] k = ground arith
lookup-collect d ((j, h) ∷ keyed) k =
    ground (arith, lookup-collect (insert j h d) keyed k, lookup-insert k j h d)

present : (o : Option ContentHash) → is_some o ≡ true → (h : ContentHash) × (o ≡ some h)
present none e = cc
present (some h) e = (h, refl)

absent : (o : Option ContentHash) → is_some o ≡ false → o ≡ none
absent none e = refl
absent (some h) e = cc

new_keys-same :
    (old other ks : List ChildKey)
    → ((k : ChildKey) → contains old k ≡ contains other k)
    → new_keys old ks ≡ new_keys other ks
new_keys-same old other [] same = refl
new_keys-same old other (k ∷ ks) same = ground (arith, same k, new_keys-same old other ks same)

module _ {St : Type 0} (again : Recursive St) (anc our their : Dict ChildKey ContentHash) where
  theirs_children-by_key :
      (processed : List ChildKey) (keyed : Keyed)
      → ((k : ChildKey) → contains processed k ≡ false → lookup k our ≡ none)
      → ((k : ChildKey) → contains (keys keyed) k ≡ true → is_some (lookup k their) ≡ true)
      → theirs_children again anc their processed keyed
        ≡ by_key again anc our their (new_keys processed (keys keyed))
  unfolding theirs_children
  theirs_children-by_key processed [] out there = refl
  theirs_children-by_key processed ((key, h) ∷ keyed) out there =
      let rest = theirs_children-by_key processed keyed out (λ k e. there k (ground (arith, e))) in
      elim (Bool-cases (contains processed key)) [
        | inl old ↦ rw old rest
        | inr new ↦
            let (th, known) =
              present (lookup key their) (there key (ground (arith, ==_refl key))) in
            rw (new, out key new, known)
              (ap (λ m. m >>= then_rest (theirs_children again anc their processed keyed))
                  (place_theirs-three_way again (lookup key anc) th)
                ∙ ap
                    (λ r.
                      settled again (lookup key anc) none (some th)
                        (three_way (lookup key anc) none (some th))
                      >>= then_rest r)
                    rest)
      ]

  merged_children-by_key :
      (processed : List ChildKey) (keyed theirs_keyed : Keyed)
      → ((k : ChildKey)
          → contains (push_all processed (keys keyed)) k ≡ false
          → lookup k our ≡ none)
      → ((k : ChildKey) → contains (keys keyed) k ≡ true → is_some (lookup k our) ≡ true)
      → ((k : ChildKey) → contains (keys theirs_keyed) k ≡ true → is_some (lookup k their) ≡ true)
      → merged_children again anc our their processed keyed theirs_keyed
        ≡ by_key again anc our their
            (keys keyed ++ new_keys (push_all processed (keys keyed)) (keys theirs_keyed))
  unfolding merged_children
  merged_children-by_key processed [] theirs_keyed out ours_there there =
      theirs_children-by_key processed theirs_keyed out there
  merged_children-by_key processed ((key, h) ∷ keyed) theirs_keyed out ours_there there =
      let rest =
        merged_children-by_key (key ∷ processed) keyed theirs_keyed out
          (λ k e. ours_there k (ground (arith, e))) there in
      let (oh, known) = present (lookup key our) (ours_there key (ground (arith, ==_refl key))) in
      rw known (
        ap
          (λ m.
            m
            >>= then_rest
                (merged_children again anc our their (key ∷ processed) keyed theirs_keyed))
          (place-three_way again (lookup key anc) (lookup key their) oh)
        ∙ ap
            (λ r.
              settled again (lookup key anc) (some oh) (lookup key their)
                (three_way (lookup key anc) (some oh) (lookup key their))
              >>= then_rest r)
            rest)

-- The loops over ours' and theirs' keyed children give what the three-way merge of the hashes gives
-- at each key, ours' keys in their order and then theirs that ours does not have: a child, none, or,
-- where a key of all three has a conflict, the recursive merge; any other conflict stops them.
pub merged_children_refines :
    {St : Type 0} (again : Recursive St) (anc ours theirs : Keyed)
    → merged_children again (collect [] anc) (collect [] ours) (collect [] theirs) [] ours theirs
      ≡ by_key again
          (collect [] anc)
          (collect [] ours)
          (collect [] theirs)
          (keys ours ++ new_keys (keys ours) (keys theirs))
unfolding lookup
merged_children_refines again anc ours theirs =
    let seen : (k : ChildKey) → contains (push_all [] (keys ours)) k ≡ contains (keys ours) k =
      λ k. contains-push_all [] (keys ours) k in
    merged_children-by_key again (collect [] anc) (collect [] ours) (collect [] theirs) [] ours
      theirs
      (λ k e.
        absent (lookup k (collect [] ours)) (ground (arith, e, seen k, lookup-collect [] ours k)))
      (λ k e. ground (arith, e, lookup-collect [] ours k))
      (λ k e. ground (arith, e, lookup-collect [] theirs k))
    ∙ ap
        (λ ks.
          by_key again (collect [] anc) (collect [] ours) (collect [] theirs) (keys ours ++ ks))
        (new_keys-same (push_all [] (keys ours)) (keys ours) (keys theirs) seen)

-- The children that the three-way merges give.
abbrev pub children_of : Option (Option ContentHash) → List ContentHash
children_of (some (some h)) = h ∷ []
children_of (some none) = []
children_of none = []

abbrev pub children_at :
    Dict ChildKey ContentHash
    → Dict ChildKey ContentHash
    → Dict ChildKey ContentHash
    → List ChildKey
    → List ContentHash
children_at anc our their [] = []
children_at anc our their (k ∷ ks) =
    children_of (three_way (lookup k anc) (lookup k our) (lookup k their))
    ++ children_at anc our their ks

-- Where no key has a conflict, nothing is merged recursively.
pub by_key-independent :
    {St : Type 0} (again : Recursive St) (anc our their : Dict ChildKey ContentHash)
    (ks : List ChildKey) (st : St)
    → ((k : ChildKey) → three_way (lookup k anc) (lookup k our) (lookup k their) ≢ none)
    → by_key again anc our their ks st ≡ (ok (some (children_at anc our their ks)), st)
by_key-independent again anc our their [] st apart = refl
by_key-independent {St} again anc our their (k ∷ ks) st apart =
    go (three_way (lookup k anc) (lookup k our) (lookup k their)) (apart k)
      (by_key-independent again anc our their ks st apart)
  where
    go :
        (v : Option (Option ContentHash))
        → v ≢ none
        → by_key again anc our their ks st ≡ (ok (some (children_at anc our their ks)), st)
        → (settled again (lookup k anc) (lookup k our) (lookup k their) v
              >>= then_rest (by_key again anc our their ks))
            st
          ≡ (ok (some (children_of v ++ children_at anc our their ks)), st)
    go (some (some h)) some_value rest = rw rest refl
    go (some none) some_value rest = rw rest refl
    go none some_value rest = absurd (some_value refl)
