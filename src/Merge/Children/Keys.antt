-- ===== src/Merge/Children/Keys.antt =====
-- A key that is no `@id` stands at one child only.
use clayers.Prelude.{
  ◌+◌, ◌≡◌, refl, sym, ap, inl, inr, ◌⊎◌, Bool, true, false, Option, List, [], ◌∷◌, ==_iff, nat_eq,
  string_eq, option_eq, arith, leb, Option-cases,
}
use clayers.Prelude.Dict.{insert, lookup-insert}
use clayers.Error.{ContentHash, Result, ok, >>=-eq-ok}
use clayers.Object.{Object, element, text, comment, pi, document, tree, commit, tag}
use clayers.Store.{fetch}
use clayers.Merge.Children.{
  ChildKey, element_by_id, element_by_pos, text_at, comment_at, other_at, Counters, start, count,
  id_value, key_of_child, key_each, key_children,
}

-- The counters have not passed the key yet. A key by `@id` is never fresh.
abbrev fresh : Counters → ChildKey → Bool
fresh c (element_by_id name id) = false
fresh c (element_by_pos name i) = leb (count name c) i
fresh c (text_at i) = leb c.text_idx i
fresh c (comment_at i) = leb c.comment_idx i
fresh c (other_at i) = leb c.other_idx i

abbrev pub is_positional : ChildKey → Bool
is_positional (element_by_id name id) = false
is_positional _ = true

-- The key stands in the list.
abbrev pub Has : ChildKey → List (ChildKey × ContentHash) → Type 0
Has k [] = ⊥
Has k ((j, h) ∷ rest) = (j ≡ k) ⊎ Has k rest

-- No positional key stands twice.
abbrev pub Once : List (ChildKey × ContentHash) → Type 0
Once [] = Unit
Once ((k, h) ∷ rest) = (is_positional k ≡ true → ¬ Has k rest) × Once rest

abbrev pub hashes : List (ChildKey × ContentHash) → List ContentHash
hashes [] = []
hashes ((k, h) ∷ rest) = h ∷ hashes rest

-- A turn of the loop gives a key that is used up after it, and frees none.
turn_passed :
    (o : Object) (c : Counters)
    → (fresh (key_of_child o c).1 (key_of_child o c).0 ≡ false)
      × (is_positional (key_of_child o c).0 ≡ true → fresh c (key_of_child o c).0 ≡ true)
unfolding key_of_child
turn_passed (element e) c = elim (Option-cases (id_value e.attributes)) [
  | inl none_there ↦ ground (
    arith,
    none_there,
    lookup-insert e.local_name e.local_name (count e.local_name c + 1) c.name_counts,
    ==_iff e.local_name e.local_name,
  )
  | inr (id, there) ↦ ground (arith, there)
]
turn_passed (text t) c = ground arith
turn_passed (comment t) c = ground arith
turn_passed (pi t) c = ground arith
turn_passed (document t) c = ground arith
turn_passed (tree t) c = ground arith
turn_passed (commit t) c = ground arith
turn_passed (tag t) c = ground arith

turn_keeps :
    (o : Object) (c : Counters) (k : ChildKey)
    → fresh (key_of_child o c).1 k ≡ true
    → fresh c k ≡ true
unfolding key_of_child
turn_keeps (element e) c k f = elim (Option-cases (id_value e.attributes)) [
  | inl none_there ↦ named k (ground (arith, f, none_there))
  | inr (id, there) ↦ ground (arith, f, there)
]
  where
    named :
        (j : ChildKey)
        → fresh
            (record c {
              name_counts = insert e.local_name (count e.local_name c + 1) c.name_counts;
            })
            j
          ≡ true
        → fresh c j ≡ true
    named (element_by_pos name i) g = ground (
      arith,
      g,
      lookup-insert name e.local_name (count e.local_name c + 1) c.name_counts,
      ==_iff e.local_name name,
    )
    named (element_by_id name id) g = cc
    named (text_at i) g = g
    named (comment_at i) g = g
    named (other_at i) g = g
turn_keeps (text t) c k f = ground (arith, f)
turn_keeps (comment t) c k f = ground (arith, f)
turn_keeps (pi t) c k f = ground (arith, f)
turn_keeps (document t) c k f = ground (arith, f)
turn_keeps (tree t) c k f = ground (arith, f)
turn_keeps (commit t) c k f = ground (arith, f)
turn_keeps (tag t) c k f = ground (arith, f)

module _ (get : ContentHash → Result (Option Object)) where
  -- A successful turn of the loop.
  key_each-cons :
      (h : ContentHash) (children : List ContentHash) (c : Counters)
      (keyed : List (ChildKey × ContentHash))
      → key_each get (h ∷ children) c ≡ ok keyed
      → (o : Object) × (rest : List (ChildKey × ContentHash)) × (key_each get children
            (key_of_child o c).1
          ≡ ok rest)
        × (((key_of_child o c).0, h) ∷ rest ≡ keyed)
  unfolding key_each
  key_each-cons h children c keyed e =
      let (o, f, e₁) = >>=-eq-ok (fetch get h) _ e in
      let (rest, q, e₂) = >>=-eq-ok (key_each get children (key_of_child o c).1) _ e₁ in
      (o, rest, q, cc)

  hashes-key_each :
      (children : List ContentHash) (c : Counters) (keyed : List (ChildKey × ContentHash))
      → key_each get children c ≡ ok keyed
      → hashes keyed ≡ children
  unfolding key_each
  hashes-key_each [] c keyed e = let same : [] ≡ keyed = cc in rw (← same) refl
  hashes-key_each (h ∷ children) c keyed e =
      let (o, rest, q, same) = key_each-cons h children c keyed e in
      rw (← same) (ap (λ l. h ∷ l) (hashes-key_each children (key_of_child o c).1 rest q))

  -- Every positional key of a successful loop was fresh before it.
  key_each-fresh :
      (children : List ContentHash) (c : Counters) (keyed : List (ChildKey × ContentHash))
      (k : ChildKey)
      → key_each get children c ≡ ok keyed
      → is_positional k ≡ true
      → Has k keyed
      → fresh c k ≡ true
  unfolding key_each
  key_each-fresh [] c keyed k e pos m =
      let same : keyed ≡ [] = cc in let m' : Has k [] = rw same at m in absurd m'
  key_each-fresh (h ∷ children) c keyed k e pos m =
      let (o, rest, q, same) = key_each-cons h children c keyed e in
      let m' : Has k (((key_of_child o c).0, h) ∷ rest) = rw (sym same) at m in
      elim m' [
        | inl at ↦ rw (← at) ((turn_passed o c).1 (rw (sym at) at pos))
        | inr in_rest ↦
            turn_keeps o c k (key_each-fresh children (key_of_child o c).1 rest k q pos in_rest)
      ]

  Once-key_each :
      (children : List ContentHash) (c : Counters) (keyed : List (ChildKey × ContentHash))
      → key_each get children c ≡ ok keyed
      → Once keyed
  unfolding key_each
  Once-key_each [] c keyed e = let same : [] ≡ keyed = cc in rw (← same) tt
  Once-key_each (h ∷ children) c keyed e =
      let (o, rest, q, same) = key_each-cons h children c keyed e in
      let (used, _) = turn_passed o c in
      rw (← same) (
        (λ pos m. ground (
          arith,
          used,
          key_each-fresh children (key_of_child o c).1 rest (key_of_child o c).0 q pos m,
        )),
        Once-key_each children (key_of_child o c).1 rest q,
      )

  -- If `key_children` succeeds, its pairs have the children's hashes in their order, and no key
  -- other than one by `@id` stands at two children.
  pub key_children_lem :
      (children : List ContentHash) (keyed : List (ChildKey × ContentHash))
      → key_children get children ≡ ok keyed
      → (hashes keyed ≡ children) × Once keyed
  unfolding key_children
  key_children_lem children keyed e =
      (hashes-key_each children start keyed e, Once-key_each children start keyed e)
