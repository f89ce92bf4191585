-- ===== src/Diff/Nodes.antt =====
-- The structural diff of two nodes (crates/clayers-repo/src/diff.rs).
pub mod Empty
use clayers.Prelude.{
  ℕ, zero, suc, ◌+◌, ◌&&◌, String, Bool, true, false, Option, none, some, List, [], ◌∷◌, ◌++◌, ◌==◌,
  nat_eq, string_eq, option_eq, if◌then◌else◌,
}
use clayers.Error.{ContentHash, Result, ok, err, out_of_fuel, ◌>>=◌}
use clayers.Object.{Object, element, text, Attribute, ElementObject}
use clayers.Store.{fetch}

mutual
  pub data NodeChange : Type 0 where
    added removed : ContentHash → ℕ → ContentHash → NodeChange
    modified : ContentHash → ContentHash → TreeDiff → NodeChange
    attribute_changed : ContentHash → String → Option String → Option String → NodeChange
    text_changed : ContentHash → ContentHash → NodeChange

  -- The list of changes.
  pub data TreeDiff : Type 0 where
    no_changes : TreeDiff
    change : NodeChange → TreeDiff → TreeDiff

-- `TreeDiff::is_empty`
abbrev pub is_empty : TreeDiff → Bool
is_empty no_changes = true
is_empty (change c d) = false

-- One list of changes pushed behind another.
abbrev pub and_then : TreeDiff → TreeDiff → TreeDiff
and_then no_changes e = e
and_then (change c d) e = change c (and_then d e)

abbrev pub same_name : Attribute → Attribute → Bool
same_name a b = a.local_name == b.local_name && a.namespace_uri == b.namespace_uri

-- `iter().find(...)`
unfoldable pub matching : Attribute → List Attribute → Option Attribute
matching a [] = none
matching a (b ∷ bs) = if same_name b a then some b else matching a bs

abbrev pub attribute_change : ContentHash → Attribute → Option Attribute → TreeDiff
attribute_change h a (some b) =
    if b.value == a.value
    then no_changes
    else change (attribute_changed h a.local_name (some a.value) (some b.value)) no_changes
attribute_change h a none = change (attribute_changed h a.local_name (some a.value) none) no_changes

unfoldable pub removed_or_changed : ContentHash → List Attribute → List Attribute → TreeDiff
removed_or_changed h [] bs = no_changes
removed_or_changed h (a ∷ xs) bs =
    and_then (attribute_change h a (matching a bs)) (removed_or_changed h xs bs)

abbrev pub attribute_addition : ContentHash → Attribute → Option Attribute → TreeDiff
attribute_addition h b (some a) = no_changes
attribute_addition h b none =
    change (attribute_changed h b.local_name none (some b.value)) no_changes

unfoldable pub added_attributes : ContentHash → List Attribute → List Attribute → TreeDiff
added_attributes h xs [] = no_changes
added_attributes h xs (b ∷ bs) =
    and_then (attribute_addition h b (matching b xs)) (added_attributes h xs bs)

unfoldable pub diff_attributes : ContentHash → ElementObject → ElementObject → TreeDiff
diff_attributes h a b =
    and_then (removed_or_changed h a.attributes b.attributes)
      (added_attributes h a.attributes b.attributes)

-- The children past the common length, from a position on.
abbrev pub all_removed : ContentHash → ℕ → List ContentHash → TreeDiff
all_removed parent i [] = no_changes
all_removed parent i (c ∷ cs) = change (removed parent i c) (all_removed parent (i + 1) cs)

abbrev pub all_added : ContentHash → ℕ → List ContentHash → TreeDiff
all_added parent i [] = no_changes
all_added parent i (c ∷ cs) = change (added parent i c) (all_added parent (i + 1) cs)

abbrev modified_by : ContentHash → ContentHash → TreeDiff → TreeDiff
modified_by a b inner = change (modified a b inner) no_changes

-- `diff_children` over a way to compare two nodes, from position `i` on.
unfoldable pub diff_children :
    (ContentHash → ContentHash → Result TreeDiff)
    → ContentHash
    → ℕ
    → List ContentHash
    → List ContentHash
    → Result TreeDiff
diff_children compare parent i [] bs = ok (all_added parent i bs)
diff_children compare parent i (a ∷ xs) [] = ok (all_removed parent i (a ∷ xs))
diff_children compare parent i (a ∷ xs) (b ∷ bs) =
    (if a == b then ok no_changes else (compare a b >>= λ inner. ok (modified_by a b inner)))
    >>= λ first. diff_children compare parent (i + 1) xs bs >>= λ rest. ok (and_then first rest)

-- The `match` on the two objects.
unfoldable pub diff_objects :
    (ContentHash → ContentHash → Result TreeDiff)
    → ContentHash
    → ContentHash
    → Object
    → Object
    → Result TreeDiff
diff_objects compare a b (text t) (text u) = ok (change (text_changed a b) no_changes)
diff_objects compare a b (element e) (element f) =
    diff_children compare a 0 e.children f.children >>= λ children.
    ok (and_then (diff_attributes b e f) children)
diff_objects compare a b x y = ok (change (removed a 0 a) (change (added b 0 b) no_changes))

module _ (get : ContentHash → Result (Option Object)) where
  unfoldable pub diff : ℕ → ContentHash → ContentHash → Result TreeDiff
  diff zero a b = out_of_fuel
  diff (suc fuel) a b =
      if a == b
      then ok no_changes
      else (fetch get a >>= λ obj_a.
          fetch get b >>= λ obj_b. diff_objects (diff fuel) a b obj_a obj_b)
