-- ===== src/Diff/Nodes/Empty.antt =====
-- What an empty structural diff says, and what it does not.
use clayers.Prelude.{
  ℕ, suc, ◌+◌, ◌≡◌, refl, ap, ◌∙◌, ◌≢◌, ◌↔◌, inl, inr, false, Option, none, some, List, [], ◌∷◌,
  ◌==◌, ==_iff, ==_refl, nat_eq, string_eq, if◌then◌else◌, arith, Bool-cases,
}
use clayers.Error.{ContentHash, Result, ok, ◌>>=◌, >>=-eq-ok}
use clayers.Object.{Object, element, Attribute, ElementObject}
use clayers.Store.{fetch}
use clayers.Diff.Nodes.{
  TreeDiff, no_changes, change, and_then, matching, attribute_change, attribute_addition,
  removed_or_changed, added_attributes, diff_attributes, modified_by, diff_children, diff_objects,
  diff,
}

and_then-empty : (d e : TreeDiff) → and_then d e ≡ no_changes → (d ≡ no_changes) × (e ≡ no_changes)
and_then-empty no_changes e h = (refl, h)
and_then-empty (change c d) e h = cc

-- Every attribute has a partner of its name in the other list, with its value.
abbrev pub Kept : List Attribute → List Attribute → Type 0
Kept [] bs = Unit
Kept (a ∷ xs) bs = ((b : Attribute) × (matching a bs ≡ some b) × (b.value ≡ a.value)) × Kept xs bs

-- Every attribute has a partner of its name in the other list.
abbrev pub Known : List Attribute → List Attribute → Type 0
Known [] xs = Unit
Known (b ∷ bs) xs = ((a : Attribute) × (matching b xs ≡ some a)) × Known bs xs

removed_or_changed-Kept :
    (h : ContentHash) (xs bs : List Attribute)
    → (removed_or_changed h xs bs ≡ no_changes) ↔ Kept xs bs
unfolding removed_or_changed
removed_or_changed-Kept h [] bs = (λ _. tt, λ _. refl)
removed_or_changed-Kept h (a ∷ xs) bs =
    let ih = removed_or_changed-Kept h xs bs in (forward ih, backward ih)
  where
    one :
        (x : Option Attribute)
        → attribute_change h a x ≡ no_changes
        → (b : Attribute) × (x ≡ some b) × (b.value ≡ a.value)
    one none e = cc
    one (some b) e = (b, refl, ground (arith, e, ==_iff b.value a.value))

    forward :
        (((removed_or_changed h xs bs ≡ no_changes) ↔ Kept xs bs))
        → removed_or_changed h (a ∷ xs) bs ≡ no_changes
        → Kept (a ∷ xs) bs
    forward ih e =
        let (first, rest) =
          and_then-empty (attribute_change h a (matching a bs)) (removed_or_changed h xs bs) e in
        (one (matching a bs) first, ih.0 rest)

    backward :
        (((removed_or_changed h xs bs ≡ no_changes) ↔ Kept xs bs))
        → Kept (a ∷ xs) bs
        → removed_or_changed h (a ∷ xs) bs ≡ no_changes
    backward ih ((b, there, equal), rest) =
        let tail = ih.1 rest in ground (arith, there, equal, tail, ==_iff b.value a.value)

added_attributes-Known :
    (h : ContentHash) (xs bs : List Attribute)
    → (added_attributes h xs bs ≡ no_changes) ↔ Known bs xs
unfolding added_attributes
added_attributes-Known h xs [] = (λ _. tt, λ _. refl)
added_attributes-Known h xs (b ∷ bs) =
    let ih = added_attributes-Known h xs bs in (forward ih, backward ih)
  where
    one :
        (x : Option Attribute)
        → attribute_addition h b x ≡ no_changes
        → (a : Attribute) × (x ≡ some a)
    one none e = cc
    one (some a) e = (a, refl)

    forward :
        (((added_attributes h xs bs ≡ no_changes) ↔ Known bs xs))
        → added_attributes h xs (b ∷ bs) ≡ no_changes
        → Known (b ∷ bs) xs
    forward ih e =
        let (first, rest) =
          and_then-empty (attribute_addition h b (matching b xs)) (added_attributes h xs bs) e in
        (one (matching b xs) first, ih.0 rest)

    backward :
        (((added_attributes h xs bs ≡ no_changes) ↔ Known bs xs))
        → Known (b ∷ bs) xs
        → added_attributes h xs (b ∷ bs) ≡ no_changes
    backward ih ((a, there), rest) = let tail = ih.1 rest in ground (arith, there, tail)

module _ (compare : ContentHash → ContentHash → Result TreeDiff) (parent : ContentHash) where
  diff_children-same :
      (i : ℕ) (xs : List ContentHash) → diff_children compare parent i xs xs ≡ ok no_changes
  unfolding diff_children
  diff_children-same i [] = refl
  diff_children-same i (x ∷ xs) = ground (arith, ==_refl x, diff_children-same (i + 1) xs)

  diff_children-empty :
      (i : ℕ) (xs bs : List ContentHash)
      → diff_children compare parent i xs bs ≡ ok no_changes
      → xs ≡ bs
  unfolding diff_children
  diff_children-empty i [] [] e = refl
  diff_children-empty i [] (b ∷ bs) e = cc
  diff_children-empty i (a ∷ xs) [] e = cc
  diff_children-empty i (a ∷ xs) (b ∷ bs) e =
      let (first, p, e₁) =
        >>=-eq-ok
          (if a == b then ok no_changes else (compare a b >>= λ inner. ok (modified_by a b inner)))
          _ e in
      let (rest, q, e₂) = >>=-eq-ok (diff_children compare parent (i + 1) xs bs) _ e₁ in
      let both : and_then first rest ≡ no_changes = cc in
      let (no_first, no_rest) = and_then-empty first rest both in
      let same_rest = diff_children-empty (i + 1) xs bs (q ∙ ap ok no_rest) in
      elim (Bool-cases (a == b)) [
        | inl equal ↦ let at = (==_iff a b).0 equal in rw (at, same_rest)
        | inr differ ↦
            let (inner, r, e₃) = >>=-eq-ok (compare a b) _ (rw differ at p) in
            ground (arith, e₃, no_first)
      ]

module _ (get : ContentHash → Result (Option Object)) where
  -- For two elements that the store has at different hashes: the structural diff of them is empty
  -- exactly when they have the same children, every attribute of the first has a partner of its name
  -- and value in the second, and every attribute of the second has a partner of its name in the
  -- first. The elements' own names do not matter.
  pub diff_empty_iff :
      (fuel : ℕ) (a b : ContentHash) (e f : ElementObject)
      → a ≢ b
      → fetch get a ≡ ok (element e)
      → fetch get b ≡ ok (element f)
      → (diff get (suc fuel) a b ≡ ok no_changes) ↔ (
          (e.children ≡ f.children)
          × Kept e.attributes f.attributes
          × Known f.attributes e.attributes)
  unfolding diff diff_objects diff_attributes
  diff_empty_iff fuel a b e f differ at_a at_b =
      let off : (a == b) ≡ false = ground (arith, ==_iff a b, differ) in
      let kept = removed_or_changed-Kept b e.attributes f.attributes in
      let known = added_attributes-Known b e.attributes f.attributes in
      rw (off, at_a, at_b)
        (
          (λ h.
              let (children, p, q) =
                >>=-eq-ok (diff_children (diff get fuel) a 0 e.children f.children) _ h in
              let all : and_then (diff_attributes b e f) children ≡ no_changes = cc in
              let (no_attributes, no_children) =
                and_then-empty (diff_attributes b e f) children all in
              let (one, two) =
                and_then-empty (removed_or_changed b e.attributes f.attributes)
                  (added_attributes b e.attributes f.attributes) no_attributes in
              (
                diff_children-empty (diff get fuel) a 0 e.children f.children
                    (p ∙ ap ok no_children),
                kept.0 one,
                known.0 two,
              )),
          λ (equal, k, n).
              let one = kept.1 k in
              let two = known.1 n in
              let three = diff_children-same (diff get fuel) a 0 f.children in
              rw (equal, three, one, two),
        )
