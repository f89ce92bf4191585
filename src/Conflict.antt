-- ===== src/Conflict.antt =====
-- Finding the elements that stand for conflicts (crates/clayers-repo/src/conflict.rs). One unit of fuel
-- stands for one level of the document.
pub mod Listed
use clayers.Prelude.{
  ℕ, zero, suc, String, Bool, true, false, ◌&&◌, Option, none, some, List, [], ◌∷◌, ◌++◌, ◌==◌,
  nat_eq, string_eq, option_eq, if◌then◌else◌,
}
use clayers.Prelude.Dict.{Dict, lookup}
use clayers.Error.{
  ContentHash, Error, not_found, invalid_object, Result, ok, err, out_of_fuel, ok_or, ◌>>=◌,
}
use clayers.Object.{Object, element, document, Attribute, ElementObject}
use clayers.Store.{ObjectStore}
use clayers.Store.Subtree.{try_collect_stream}

pub record ConflictSide : Type 0 where
  pub commit : ContentHash
  pub ref_name : String
  pub content : ContentHash

pub record ConflictInfo : Type 0 where
  pub path : String
  pub ancestor : ContentHash
  pub sides : List ConflictSide

abbrev pub is_divergence_element : ElementObject → Bool
is_divergence_element e =
    e.local_name == "divergence" && e.namespace_uri == some "urn:clayers:repository"

-- `find(...).map(...).unwrap_or_default()`
unfoldable pub path_attribute : List Attribute → String
path_attribute [] = ""
path_attribute (a ∷ attrs) = if a.local_name == "path" then a.value else path_attribute attrs

abbrev pub conflict_at : ContentHash → ElementObject → ConflictInfo
conflict_at h e = record { path = path_attribute e.attributes; ancestor = h; sides = [] }

abbrev pub or_else : Result Bool → Result Bool → Result Bool
or_else (ok true) rest = ok true
or_else (ok false) rest = rest
or_else (err e) rest = err e
or_else out_of_fuel rest = out_of_fuel

-- A loop that ends with the first child that has a conflict.
abbrev pub any_child : (ContentHash → Result Bool) → List ContentHash → Result Bool
any_child check [] = ok false
any_child check (h ∷ hs) = or_else (check h) (any_child check hs)

abbrev pub each_child :
    (ContentHash → Result (List ConflictInfo)) → List ContentHash → Result (List ConflictInfo)
each_child collect [] = ok []
each_child collect (h ∷ hs) =
    collect h >>= λ found. each_child collect hs >>= λ more. ok (found ++ more)

abbrev pub check_object : (ContentHash → Result Bool) → Option Object → Result Bool
check_object check (some (element e)) =
    if is_divergence_element e then ok true else any_child check e.children
check_object check _ = ok false

unfoldable pub check_conflicts : ℕ → Dict ContentHash Object → ContentHash → Result Bool
check_conflicts zero objects h = out_of_fuel
check_conflicts (suc n) objects h = check_object (check_conflicts n objects) (lookup h objects)

-- The conflict of the element itself comes before those below it.
abbrev pub collect_object :
    (ContentHash → Result (List ConflictInfo))
    → ContentHash
    → Option Object
    → Result (List ConflictInfo)
collect_object collect h (some (element e)) = each_child collect e.children >>= λ below.
    ok (if is_divergence_element e then conflict_at h e ∷ below else below)
collect_object collect h _ = ok []

unfoldable pub collect_conflicts :
    ℕ → Dict ContentHash Object → ContentHash → Result (List ConflictInfo)
collect_conflicts zero objects h = out_of_fuel
collect_conflicts (suc n) objects h =
    collect_object (collect_conflicts n objects) h (lookup h objects)

abbrev pub root_of : Object → Result ContentHash
root_of (document d) = ok d.root
root_of _ = err (invalid_object "expected Document object")

module _ {S : Type 0} (b : ObjectStore S) (fuel : ℕ) where
  -- The document's objects and its root.
  abbrev pub scanned :
      {A : Type 0} → (Dict ContentHash Object → ContentHash → Result A) → S → ContentHash → Result A
  scanned scan s doc = try_collect_stream (b.subtree s doc) >>= λ objects.
      ok_or (not_found doc) (lookup doc objects) >>= λ o. root_of o >>= λ root. scan objects root

  unfoldable pub has_conflicts : S → ContentHash → Result Bool
  has_conflicts = scanned (check_conflicts fuel)

  unfoldable pub list_conflicts : S → ContentHash → Result (List ConflictInfo)
  list_conflicts = scanned (collect_conflicts fuel)
