-- ===== src/Examples/Elements.antt =====
-- A document that two sides changed in two places.
use clayers.Prelude.{◌≡◌, refl, some, none, Option, [], ◌∷◌, ◌++◌, nat_eq, string_eq}
use clayers.Prelude.Dict.{collect, keys, lookup, insert, remove}
use clayers.Error.{ContentHash, Result, ok}
use clayers.Object.{Object, text, element, document, DocumentObject}
use clayers.Store.{fetch}
use clayers.Store.Memory
use clayers.Store.Memory.{MemoryStore}
use clayers.Store.Memory.Backend.{memory, memory-IsLawful}
use clayers.Merge.Attributes.{
  merge_attributes, merge_keys, attribute_map, ordered_keys, judge, key_eq,
}
use clayers.Merge.Children.{
  element_by_id, text_at, child_key_eq, key_children, key_each, key_of_child, id_value,
}
use clayers.Merge.Elements.{
  Recursive, Keyed, merged_children, theirs_children, push_placed, place, place_theirs,
}
use clayers.Merge.Elements.Recursion.{
  Hashing, merge_documents, merge_elements, merge_elements_cached, write_element, hashed_element,
  collect_all, collect_subtree,
}
use clayers.Merge.Elements.Children.{by_key, new_keys, merged_children_refines}
use clayers.Merge.Elements.Documents.{IsMergedRoot, merge_documents_lem}
use clayers.Merge.ThreeWay.{three_way}
use clayers.Examples.Data.{body}

-- Ours adds a child before the old one, and theirs one with an id.
abbrev base : Keyed
base = (text_at 0, 1) ∷ []

abbrev mine : Keyed
mine = (text_at 0, 2) ∷ []

abbrev other : Keyed
other = (text_at 0, 1) ∷ (element_by_id "p" "new", 11) ∷ []

abbrev by_text : Hashing
by_text = record {
  placeholder = 0;
  temp_hash = 999;
  build_xml_from_objects = λ cache h. ok "<body/>";
  hash_element_xml = λ xml. ok (50, 51);
  document_xml = λ d. "<body/>";
  hash_exclusive = λ xml. ok 52;
}

abbrev again : Recursive MemoryStore
again = merge_elements memory by_text 4 3

merged_children_refines_example :
    merged_children again (collect [] base) (collect [] mine) (collect [] other) [] mine other
    ≡ by_key again
        (collect [] base)
        (collect [] mine)
        (collect [] other)
        (keys mine ++ new_keys (keys mine) (keys other))
merged_children_refines_example = merged_children_refines again base mine other

abbrev shared : MemoryStore
shared = record {
  objects =
      (1, text (record { content = "hello" }))
      ∷ (2, text (record { content = "goodbye" }))
      ∷ (11, element (record body { local_name = "p"; children = [] }))
      ∷ (20, element body)
      ∷ (21, element (record body { children = 2 ∷ [] }))
      ∷ (22, element (record body { children = 1 ∷ 11 ∷ [] }))
      ∷ (30, document (record { root = 20; prologue = [] }))
      ∷ (31, document (record { root = 21; prologue = [] }))
      ∷ (32, document (record { root = 22; prologue = [] }))
      ∷ [];
  refs = ("HEAD", 9) ∷ [];
  inclusive_index = [];
}

readable : (s : MemoryStore) (h : ContentHash) → (x : Option Object) × (memory.get s h ≡ ok x)
unfolding Memory.get
readable s h = (lookup h s.objects, refl)

abbrev base_document : ContentHash
base_document = 30

abbrev our_document : ContentHash
our_document = 31

abbrev their_document : ContentHash
their_document = 32

abbrev merged : Result (Option ContentHash) × MemoryStore
merged = merge_documents memory by_text 4 3 base_document our_document their_document shared

unsettled : three_way base_document our_document their_document ≡ none
unsettled = refl

-- The document's root has the children of both sides.
both_edits :
    (merged.0 ≡ ok (some 52))
    × (Memory.get merged.1 50
        ≡ ok (some (element (record body { children = 2 ∷ 11 ∷ []; inclusive_hash = 51 }))))
unfolding merge_documents fetch Memory.get lookup merge_elements merge_elements_cached
    merge_attributes merge_keys ordered_keys key_children key_each merged_children push_placed place
    collect insert child_key_eq key_of_child attribute_map judge key_eq id_value collect_all
    collect_subtree hashed_element place_theirs theirs_children write_element remove
    Memory.write_batch Memory.put_each Memory.put Memory.commit Memory.flush
both_edits = (refl, refl)

merge_documents_lem_example :
    (a : DocumentObject) × (o : DocumentObject) × (t : DocumentObject) × (root : ContentHash)
    × (fetch (memory.get shared) base_document ≡ ok (document a))
    × (fetch (memory.get shared) our_document ≡ ok (document o))
    × (fetch (memory.get shared) their_document ≡ ok (document t))
    × (memory.get merged.1 52
        ≡ ok (some (document (record { root = root; prologue = o.prologue }))))
    × IsMergedRoot memory by_text 4 2 shared a o t
        (record { root = root; prologue = o.prologue })
        52
        merged.1
merge_documents_lem_example =
    (merge_documents_lem memory by_text 4 memory-IsLawful readable 2 base_document our_document
        their_document shared).1
      52 unsettled both_edits.0
