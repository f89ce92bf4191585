-- ===== src/Merge/Elements/Recursion.antt =====
-- `merge_documents`, `merge_elements_cached` and `collect_subtree` (crates/clayers-repo/src/merge.rs).
-- One unit of fuel stands for one level of the elements that are merged.
use clayers.Prelude.{
  ℕ, zero, suc, String, Bool, ◌&&◌, Option, none, some, List, [], ◌∷◌, ◌==◌, nat_eq, string_eq,
  option_eq, if◌then◌else◌,
}
use clayers.Prelude.Dict.{Dict, lookup, insert, remove, collect}
use clayers.Error.{ContentHash, Result, ok, err, out_of_fuel, ◌>>=◌ as and_then}
use clayers.Object.{Object, element, document, Attribute, ElementObject, DocumentObject}
use clayers.Store.{fetch}
use clayers.Store.Lawful.{Backend, is_some}
use clayers.Action.{Action, pure, lift, reading, ◌>>=◌}
use clayers.Merge.Attributes.{merge_attributes}
use clayers.Merge.Children.{child_key_eq, key_children}
use clayers.Merge.Elements.{Keyed, Recursive, merged_children}

abbrev pub Cache : Type 0
Cache = Dict ContentHash Object

-- What merging uses of export.rs and hash.rs: the XML of an element out of a map of objects, and the
-- hashes of an element's and of a document's XML; and the two hashes of fixed texts.
pub record Hashing : Type 0 where
  pub placeholder : ContentHash
  pub temp_hash : ContentHash
  pub build_xml_from_objects : Cache → ContentHash → Result String
  pub hash_element_xml : String → Result (ContentHash × ContentHash)
  pub document_xml : DocumentObject → String
  pub hash_exclusive : String → Result ContentHash

module _ (get : ContentHash → Result (Option Object)) where
  abbrev collect_each :
      (ContentHash → Cache → Result Cache) → List ContentHash → Cache → Result Cache
  collect_each again [] map = ok map
  collect_each again (h ∷ hs) map = and_then (again h map) (λ more. collect_each again hs more)

  abbrev collect_links : (ContentHash → Cache → Result Cache) → Object → Cache → Result Cache
  collect_links again (element e) map = collect_each again e.children map
  collect_links again o map = ok map

  unfoldable pub collect_subtree : ℕ → ContentHash → Cache → Result Cache
  collect_subtree zero h map = out_of_fuel
  collect_subtree (suc n) h map =
      if is_some (lookup h map)
      then ok map
      else and_then (fetch get h)
          (λ o. and_then (collect_links (collect_subtree n) o map) (λ more. ok (insert h o more)))

  unfoldable pub collect_all : ℕ → List ContentHash → Cache → Result Cache
  collect_all depth = collect_each (collect_subtree depth)

-- The merged element before its hash is known.
abbrev pub merged_element :
    Hashing → ElementObject → List Attribute → List ContentHash → ElementObject
merged_element hashing ours attrs children = record {
  local_name = ours.local_name;
  namespace_uri = ours.namespace_uri;
  namespace_prefix = ours.namespace_prefix;
  extra_namespaces = ours.extra_namespaces;
  attributes = attrs;
  children = children;
  inclusive_hash = hashing.placeholder;
}

abbrev pub same_name : ElementObject → ElementObject → ElementObject → Bool
same_name anc ours theirs =
    (anc.local_name == ours.local_name && anc.local_name == theirs.local_name)
    && (anc.namespace_uri == ours.namespace_uri && anc.namespace_uri == theirs.namespace_uri)

module _ {S : Type 0} (b : Backend S) (hashing : Hashing) (depth : ℕ) where
  -- The store beside the cache.
  abbrev pub Merging : Type 0 → Type 0
  Merging A = Action (S × Cache) A

  abbrev pub from_store : {A : Type 0} → (S → Result A) → Merging A
  from_store f st = (f st.0, st)

  abbrev pub to_store : {A : Type 0} → Action S A → Merging A
  to_store m st = let (r, s) = m st.0 in (r, (s, st.1))

  -- The temporary entry is in the cache while the XML is built and hashed; only a success takes it out.
  abbrev pub after_hashing : {A : Type 0} → Result A → Cache → Cache
  after_hashing (ok a) cache = remove hashing.temp_hash cache
  after_hashing (err e) cache = cache
  after_hashing out_of_fuel cache = cache

  abbrev pub hashed_in :
      ElementObject → S × Cache → Result Cache → Result (ContentHash × ContentHash) × (S × Cache)
  hashed_in merged st (ok cache) =
      let with_temp = insert hashing.temp_hash (element merged) cache in
      let hashes =
        and_then (hashing.build_xml_from_objects with_temp hashing.temp_hash)
          hashing.hash_element_xml in
      (hashes, (st.0, after_hashing hashes with_temp))
  hashed_in merged st (err e) = (err e, st)
  hashed_in merged st out_of_fuel = (out_of_fuel, st)

  -- The merged element's hashes, from the XML that its objects make.
  unfoldable pub hashed_element : ElementObject → Merging (ContentHash × ContentHash)
  hashed_element merged st =
      hashed_in merged st (collect_all (b.get st.0) depth merged.children st.1)

  abbrev pub put_one : ContentHash → Object → Action S (Unit {0})
  put_one h o = b.write_batch ((h, o) ∷ [])

  unfoldable pub write_element : ElementObject → Merging (Option ContentHash)
  write_element merged = hashed_element merged >>= λ hashes.
      to_store (put_one hashes.0 (element (record merged { inclusive_hash = hashes.1 }))) >>= λ u.
      pure (some hashes.0)

  abbrev pub finish_element :
      ElementObject → List Attribute → Option (List ContentHash) → Merging (Option ContentHash)
  finish_element ours attrs none = pure none
  finish_element ours attrs (some children) =
      write_element (merged_element hashing ours attrs children)

  abbrev pub keyed_of : ElementObject → Merging Keyed
  keyed_of e = from_store (λ s. key_children (b.get s) e.children)

  abbrev pub merge_with_attributes :
      Recursive (S × Cache)
      → ElementObject
      → ElementObject
      → ElementObject
      → Option (List Attribute)
      → Merging (Option ContentHash)
  merge_with_attributes again anc ours theirs none = pure none
  merge_with_attributes again anc ours theirs (some attrs) = keyed_of anc >>= λ a.
      keyed_of ours >>= λ o. keyed_of theirs >>= λ t.
      merged_children again (collect [] a) (collect [] o) (collect [] t) [] o t
      >>= finish_element ours attrs

  abbrev pub merge_objects :
      Recursive (S × Cache) → Object → Object → Object → Merging (Option ContentHash)
  merge_objects again (element anc) (element ours) (element theirs) =
      if same_name anc ours theirs
      then merge_with_attributes again anc ours theirs
          (merge_attributes anc.attributes ours.attributes theirs.attributes)
      else pure none
  merge_objects again _ _ _ = pure none

  abbrev pub loaded : ContentHash → Merging Object
  loaded h = from_store (λ s. fetch (b.get s) h)

  unfoldable pub merge_elements_cached : ℕ → Recursive (S × Cache)
  merge_elements_cached zero ancestor ours theirs = lift out_of_fuel
  merge_elements_cached (suc n) ancestor ours theirs =
      if ours == theirs
      then pure (some ours)
      else if ours == ancestor
      then pure (some theirs)
      else if theirs == ancestor
      then pure (some ours)
      else (loaded ancestor >>= λ a.
          loaded ours >>= λ o. loaded theirs >>= λ t. merge_objects (merge_elements_cached n) a o t)

  -- With a cache of its own.
  unfoldable pub merge_elements :
      ℕ → ContentHash → ContentHash → ContentHash → Action S (Option ContentHash)
  merge_elements fuel ancestor ours theirs s =
      let (r, st) = merge_elements_cached fuel ancestor ours theirs (s, []) in (r, st.0)

  abbrev pub finish_document : DocumentObject → Option ContentHash → Action S (Option ContentHash)
  finish_document ours none = pure none
  finish_document ours (some root) =
      let merged : DocumentObject = record { root = root; prologue = ours.prologue } in
      lift (hashing.hash_exclusive (hashing.document_xml merged)) >>= λ h.
      put_one h (document merged) >>= λ u. pure (some h)

  abbrev pub merge_loaded : ℕ → Object → Object → Object → Action S (Option ContentHash)
  merge_loaded fuel (document anc) (document ours) (document theirs) =
      merge_elements fuel anc.root ours.root theirs.root >>= finish_document ours
  merge_loaded fuel _ _ _ = pure none

  unfoldable pub merge_documents :
      ℕ → ContentHash → ContentHash → ContentHash → Action S (Option ContentHash)
  merge_documents fuel ancestor ours theirs =
      if ours == theirs
      then pure (some ours)
      else if ours == ancestor
      then pure (some theirs)
      else if theirs == ancestor
      then pure (some ours)
      else (reading (λ s. fetch (b.get s) ancestor) >>= λ a.
          reading (λ s. fetch (b.get s) ours) >>= λ o.
          reading (λ s. fetch (b.get s) theirs) >>= λ t. merge_loaded fuel a o t)
